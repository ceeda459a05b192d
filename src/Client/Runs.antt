-- ===== src/Client/Runs.antt =====
-- What a request ends as, over all orders of events.
use dashscan.Prelude.{
  ℕ, ◌≡◌, refl, subst, Bool, true, false, ◌&&◌, Option, none, some, List, [], ◌∷◌, is_some,
  if◌then◌else◌, arith,
}
use dashscan.Client.{
  AbortSource, caller, timeout, CallerSignal, no_signal, live, already_aborted, Event,
  caller_aborts, time_up, fetch_resolves, fetch_rejects, Outcome, returned, thrown,
  api_timeout_error, Request, timeout_of, start_request, error_of, on_events, api_fetch,
}

abbrev pub is_timeout : Option AbortSource → Bool
is_timeout (some timeout) = true
is_timeout (some caller) = false
is_timeout none = false

module _ {R E : Type 0} where
  -- The first abort before the fetch ends, where the caller's signal is listened to or there is a timer.
  abbrev pub first_abort : Bool → Bool → List (Event R E) → Option AbortSource
  first_abort heard timed [] = none
  first_abort heard timed (caller_aborts ∷ es) =
      if heard then some caller else first_abort heard timed es
  first_abort heard timed (time_up ∷ es) =
      if timed then some timeout else first_abort heard timed es
  first_abort heard timed (fetch_resolves answer ∷ es) = none
  first_abort heard timed (fetch_rejects error ∷ es) = none

  abbrev pub abort_of : CallerSignal → Option ℕ → List (Event R E) → Option AbortSource
  abort_of no_signal timeout_ms es = first_abort false (is_some timeout_ms) es
  abort_of live timeout_ms es = first_abort true (is_some timeout_ms) es
  abort_of already_aborted timeout_ms es = some caller

  -- The first end of the fetch: its answer, or its error, which a timeout that came first wraps.
  abbrev pub ending : Option ℕ → Option AbortSource → List (Event R E) → Option (Outcome R E)
  ending timeout_ms source [] = none
  ending timeout_ms source (caller_aborts ∷ es) = ending timeout_ms source es
  ending timeout_ms source (time_up ∷ es) = ending timeout_ms source es
  ending timeout_ms source (fetch_resolves answer ∷ es) = some (returned answer)
  ending none source (fetch_rejects error ∷ es) = some (thrown error)
  ending (some ms) source (fetch_rejects error ∷ es) =
      some (if is_timeout source then api_timeout_error ms error else thrown error)

  -- A request with its outcome, its abort, and nothing left running once it has ended.
  pub record IsEnded (outcome : Option (Outcome R E)) (source : Option AbortSource)
      (r : Request R E) : Type 0 where
    pub outcome_is : r.outcome ≡ outcome
    pub source_is : r.abort_source ≡ source
    pub aborted_is : r.aborted ≡ is_some source
    pub no_timer : (r.timer && is_some r.outcome) ≡ false
    pub no_listener : (r.listener && is_some r.outcome) ≡ false

  abbrev request : Option AbortSource → Bool → Bool → Option (Outcome R E) → Request R E
  request source timer listener outcome = record {
    abort_source = source;
    aborted = is_some source;
    timer = timer;
    listener = listener;
    outcome = outcome;
  }

  on_events-IsEnded_at :
      (timeout_ms : Option ℕ) (source : Option AbortSource) (o : Outcome R E)
      (es : List (Event R E))
      → IsEnded (some o) source (on_events timeout_ms es (request source false false (some o)))
  unfolding on_events
  on_events-IsEnded_at t source o [] = record {
    outcome_is = refl;
    source_is = refl;
    aborted_is = refl;
    no_timer = refl;
    no_listener = refl;
  }
  on_events-IsEnded_at t source o (caller_aborts ∷ es) = on_events-IsEnded_at t source o es
  on_events-IsEnded_at t source o (time_up ∷ es) = on_events-IsEnded_at t source o es
  on_events-IsEnded_at t source o (fetch_resolves answer ∷ es) = on_events-IsEnded_at t source o es
  on_events-IsEnded_at t source o (fetch_rejects error ∷ es) = on_events-IsEnded_at t source o es

  error_of-ending :
      (t : Option ℕ) (source : Option AbortSource) (error : E) (es : List (Event R E))
      → some (error_of t source error) ≡ ending t source (fetch_rejects error ∷ es)
  error_of-ending none none error es = refl
  error_of-ending none (some s) error es = refl
  error_of-ending (some ms) none error es = refl
  error_of-ending (some ms) (some caller) error es = refl
  error_of-ending (some ms) (some timeout) error es = refl

  error-IsEnded :
      (t : Option ℕ) (source : Option AbortSource) (error : E) (es : List (Event R E))
      (r : Request R E)
      → IsEnded (some (error_of t source error)) source r
      → IsEnded (ending t source (fetch_rejects error ∷ es)) source r
  error-IsEnded t source error es r h =
      subst (λ o. IsEnded o source r) (error_of-ending t source error es) h

  -- Before any abort, and after the first: no later one is heard.
  on_events-IsEnded_after :
      (t : Option ℕ) (s : AbortSource) (timer listener : Bool) (es : List (Event R E))
      → IsEnded
          (ending t (some s) es)
          (some s)
          (on_events t es (request (some s) timer listener none))
  unfolding on_events
  on_events-IsEnded_after t s timer listener [] = record {
    outcome_is = refl;
    source_is = refl;
    aborted_is = refl;
    no_timer = ground arith;
    no_listener = ground arith;
  }
  on_events-IsEnded_after t s timer true (caller_aborts ∷ es) =
      on_events-IsEnded_after t s timer false es
  on_events-IsEnded_after t s timer false (caller_aborts ∷ es) =
      on_events-IsEnded_after t s timer false es
  on_events-IsEnded_after t s true listener (time_up ∷ es) =
      on_events-IsEnded_after t s false listener es
  on_events-IsEnded_after t s false listener (time_up ∷ es) =
      on_events-IsEnded_after t s false listener es
  on_events-IsEnded_after t s timer listener (fetch_resolves answer ∷ es) =
      on_events-IsEnded_at t (some s) (returned answer) es
  on_events-IsEnded_after t s timer listener (fetch_rejects error ∷ es) =
      error-IsEnded t (some s) error es _
        (on_events-IsEnded_at t (some s) (error_of t (some s) error) es)

  on_events-IsEnded_before :
      (t : Option ℕ) (timer listener : Bool) (es : List (Event R E))
      → IsEnded
          (ending t (first_abort listener timer es) es)
          (first_abort listener timer es)
          (on_events t es (request none timer listener none))
  unfolding on_events
  on_events-IsEnded_before t timer listener [] = record {
    outcome_is = refl;
    source_is = refl;
    aborted_is = refl;
    no_timer = ground arith;
    no_listener = ground arith;
  }
  on_events-IsEnded_before t timer true (caller_aborts ∷ es) =
      on_events-IsEnded_after t caller timer false es
  on_events-IsEnded_before t timer false (caller_aborts ∷ es) =
      on_events-IsEnded_before t timer false es
  on_events-IsEnded_before t true listener (time_up ∷ es) =
      on_events-IsEnded_after t timeout false listener es
  on_events-IsEnded_before t false listener (time_up ∷ es) =
      on_events-IsEnded_before t false listener es
  on_events-IsEnded_before t timer listener (fetch_resolves answer ∷ es) =
      on_events-IsEnded_at t none (returned answer) es
  on_events-IsEnded_before t timer listener (fetch_rejects error ∷ es) =
      error-IsEnded t none error es _ (on_events-IsEnded_at t none (error_of t none error) es)

  start_request-IsEnded :
      (t : Option ℕ) (signal : CallerSignal) (es : List (Event R E))
      → IsEnded
          (ending t (abort_of signal t es) es)
          (abort_of signal t es)
          (on_events t es (start_request signal t))
  unfolding start_request
  start_request-IsEnded t no_signal es = on_events-IsEnded_before t (is_some t) false es
  start_request-IsEnded t live es = on_events-IsEnded_before t (is_some t) true es
  start_request-IsEnded t already_aborted es = on_events-IsEnded_after t caller (is_some t) false es

  -- Whatever happens in whatever order, a request ends when its fetch first does: with the answer, or with
  -- the error, wrapped as a timeout if the time was up before the caller aborted, and as it is if not. It
  -- is aborted by the first of the two that comes before its end, or at once by a caller's signal that is
  -- aborted already; and once it has ended, no timer runs and no signal is listened to.
  pub api_fetch-IsEnded :
      (on_server : Bool) (signal : CallerSignal) (given : Option ℕ) (es : List (Event R E))
      → IsEnded
          (ending (timeout_of on_server given) (abort_of signal (timeout_of on_server given) es) es)
          (abort_of signal (timeout_of on_server given) es)
          (api_fetch on_server signal given es)
  unfolding api_fetch
  api_fetch-IsEnded on_server signal given es =
      start_request-IsEnded (timeout_of on_server given) signal es
