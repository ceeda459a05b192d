-- ===== src/Client.antt =====
-- `apiFetch` of frontend/src/lib/api/client.ts: a request that its caller and a timer may abort. The
-- events are what the platform tells: the caller's signal aborts, the time is up, and the fetch ends.
-- Answers and errors may be of any type.
pub mod Runs
mod Tests
use dashscan.Prelude.{
  ℕ, Bool, true, false, Option, none, some, List, [], ◌∷◌, is_some, if◌then◌else◌,
}

pub data AbortSource : Type 0 where
  caller timeout : AbortSource

-- The caller's signal, if it gives one, is live or already aborted.
pub data CallerSignal : Type 0 where
  no_signal live already_aborted : CallerSignal

pub data Event (R E : Type 0) : Type 0 where
  caller_aborts time_up : Event R E
  fetch_resolves : R → Event R E
  fetch_rejects : E → Event R E

-- What apiFetch returns or throws; ApiTimeoutError has the time that it waited and its cause.
pub data Outcome (R E : Type 0) : Type 0 where
  returned : R → Outcome R E
  thrown : E → Outcome R E
  api_timeout_error : ℕ → E → Outcome R E

-- The variables, with `controller.signal.aborted`, whether the timer runs and whether the caller's signal
-- is listened to.
pub record Request (R E : Type 0) : Type 0 where
  pub abort_source : Option AbortSource
  pub aborted : Bool
  pub timer : Bool
  pub listener : Bool
  pub outcome : Option (Outcome R E)

-- SERVER_API_TIMEOUT_MS
abbrev pub server_api_timeout_ms : ℕ
server_api_timeout_ms = 1000

-- timeoutMs: the option, or on the server one second
unfoldable pub timeout_of : Bool → Option ℕ → Option ℕ
timeout_of on_server (some ms) = some ms
timeout_of true none = some server_api_timeout_ms
timeout_of false none = none

module _ {R E : Type 0} where
  abbrev pub abort_with : AbortSource → Request R E → Request R E
  abort_with source r =
      if r.aborted then r else record r { abort_source = some source; aborted = true }

  abbrev pub listening : CallerSignal → Request R E → Request R E
  listening no_signal r = r
  listening live r = record r { listener = true }
  listening already_aborted r = abort_with caller r

  unfoldable pub start_request : CallerSignal → Option ℕ → Request R E
  start_request signal timeout_ms = listening signal (record {
    abort_source = none;
    aborted = false;
    timer = is_some timeout_ms;
    listener = false;
    outcome = none;
  })

  -- finally: clearTimeout and removeEventListener
  abbrev pub end_request : Outcome R E → Request R E → Request R E
  end_request o r = record r { timer = false; listener = false; outcome = some o }

  abbrev pub error_of : Option ℕ → Option AbortSource → E → Outcome R E
  error_of (some ms) (some timeout) error = api_timeout_error ms error
  error_of (some ms) (some caller) error = thrown error
  error_of (some ms) none error = thrown error
  error_of none source error = thrown error

  -- One event. The listener is called once, a cleared timer does not fire, and a fetch ends once.
  unfoldable pub on_event : Option ℕ → Event R E → Request R E → Request R E
  on_event timeout_ms caller_aborts r =
      if r.listener then abort_with caller (record r { listener = false }) else r
  on_event timeout_ms time_up r =
      if r.timer then abort_with timeout (record r { timer = false }) else r
  on_event timeout_ms (fetch_resolves answer) r =
      if is_some r.outcome then r else end_request (returned answer) r
  on_event timeout_ms (fetch_rejects error) r =
      if is_some r.outcome then r else end_request (error_of timeout_ms r.abort_source error) r

  unfoldable pub on_events : Option ℕ → List (Event R E) → Request R E → Request R E
  unfolding on_event
  on_events timeout_ms [] r = r
  on_events timeout_ms (e ∷ es) r = on_events timeout_ms es (on_event timeout_ms e r)

  unfoldable pub api_fetch : Bool → CallerSignal → Option ℕ → List (Event R E) → Request R E
  unfolding start_request on_events timeout_of
  api_fetch on_server signal given es =
      let timeout_ms = timeout_of on_server given in
      on_events timeout_ms es (start_request signal timeout_ms)
