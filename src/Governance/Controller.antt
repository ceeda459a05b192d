-- ===== src/Governance/Controller.antt =====
-- The handlers of api/src/controllers/GovernanceController.ts that do more than to pass on.
pub mod Window
use dashscan.Prelude.{
  ℕ, zero, ◌+◌, ◌-◌, ◌*◌, Bool, String, Option, none, some, List, ltb, ◌==◌, if◌then◌else◌,
  get_or_else,
}
use dashscan.Prelude.Maps.{Dict}
use dashscan.Intervals.{calculate_interval, interval_in_ms}
use dashscan.Governance.Series
use dashscan.Governance.Series.{SeriesData}

-- What a handler does: it sends a status and a message, or a body, or throws.
pub data Response (A : Type 0) : Type 0 where
  error : ℕ → String → Response A
  send : A → Response A
  throws : Response A

-- The query: dates that its schema has checked, in milliseconds, and a whole count.
pub record VoteSeriesQuery : Type 0 where
  pub timestamp_start : Option ℕ
  pub timestamp_end : Option ℕ
  pub intervals_count : Option ℕ
  pub running_total : Bool

abbrev pub start_date : ℕ → VoteSeriesQuery → ℕ
start_date now q = get_or_else q.timestamp_start (now - 3600000)

abbrev pub end_date : ℕ → VoteSeriesQuery → ℕ
end_date now q = get_or_else q.timestamp_end now

-- A count of 0 is falsy, as no count is.
abbrev pub step_of : ℕ → Option ℕ → ℕ
step_of period none = (calculate_interval period).1
step_of period (some count) =
    if count == 0 then (calculate_interval period).1 else interval_in_ms period count

module _ (number : String → Option ℕ) (weight_map : Dict ℕ) where
  abbrev sent : Option (List SeriesData) → Response (List SeriesData)
  sent none = throws
  sent (some series) = send series

  unfoldable pub get_proposal_vote_series :
      ℕ → VoteSeriesQuery → List String → Response (List SeriesData)
  unfolding calculate_interval interval_in_ms
  get_proposal_vote_series now q raw_votes =
      let start = start_date now q in
      let end = end_date now q in
      if ltb end start
      then error 400 "start timestamp cannot be more than end timestamp"
      else sent (
          Series.get_proposal_vote_series number weight_map start end
            (step_of (end - start) q.intervals_count) q.running_total raw_votes)
