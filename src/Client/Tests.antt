-- ===== src/Client/Tests.antt =====
-- Tests and witnesses of requests.
use dashscan.Prelude.{ℕ, String, ◌≡◌, refl, true, none, some, List, [], ◌∷◌}
use dashscan.Client.{
  live, Event, caller_aborts, time_up, fetch_resolves, fetch_rejects, thrown, api_timeout_error,
  timeout, timeout_of, start_request, on_event, on_events, api_fetch,
}
use dashscan.Client.Runs.{IsEnded, api_fetch-IsEnded}

abbrev late : List (Event ℕ String)
late = time_up ∷ caller_aborts ∷ fetch_rejects "AbortError" ∷ fetch_resolves 200 ∷ []

times_out : (api_fetch true live none late).outcome ≡ some (api_timeout_error 1000 "AbortError")
unfolding api_fetch start_request on_events on_event timeout_of
times_out = refl

caller_first :
    (api_fetch {R = ℕ} {E = String} true live
      (some 50)
      (caller_aborts ∷ time_up ∷ fetch_rejects "AbortError" ∷ [])).outcome
    ≡ some (thrown "AbortError")
unfolding api_fetch start_request on_events on_event timeout_of
caller_first = refl

api_fetch-IsEnded_example :
    IsEnded
      (some (api_timeout_error 1000 "AbortError"))
      (some timeout)
      (api_fetch true live none late)
unfolding timeout_of
api_fetch-IsEnded_example = api_fetch-IsEnded true live none late
