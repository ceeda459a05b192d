-- ===== src/Governance/Controller/Window.antt =====
-- The windows for which the vote series is sent.
use dashscan.Prelude.{
  ℕ, zero, suc, ◌-◌, ◌*◌, ◌/◌, ◌≤◌, ◌<◌, ◌≡◌, sym, subst, String, Option, none, some, List, arith,
  length, tabulate, length-tabulate,
}
use dashscan.Prelude.Maps.{Dict}
use dashscan.Intervals.Bounds.{
  calculate_interval_ge, calculate_interval-count, interval_in_ms-count, interval_in_ms-positive,
}
use dashscan.Governance.Series.{SeriesData}
use dashscan.Governance.Series.Totals.{entry, get_proposal_vote_series-eq-tabulate}
use dashscan.Governance.Controller.{
  error, send, VoteSeriesQuery, start_date, end_date, step_of, get_proposal_vote_series,
}

-- How many entries the query makes of a period.
abbrev pub IsUsual : ℕ → ℕ → Type 0
IsUsual period n = 4 * 300000 ≤ period → period < 48 * 29030400000 → (4 ≤ n) × (n < 48)

abbrev pub IsSized : ℕ → Option ℕ → ℕ → Type 0
IsSized period none n = IsUsual period n
IsSized period (some zero) n = IsUsual period n
IsSized period (some (suc c)) n = n ≤ suc c

step_of-positive : (period : ℕ) (count : Option ℕ) → 0 < period → 0 < step_of period count
step_of-positive period none p = omega (arith, calculate_interval_ge period)
step_of-positive period (some zero) p = omega (arith, calculate_interval_ge period)
step_of-positive period (some (suc c)) p = ground (arith, interval_in_ms-positive period (suc c))

step_of-IsSized :
    (period : ℕ) (count : Option ℕ) → IsSized period count (period / step_of period count)
step_of-IsSized period none = calculate_interval-count period
step_of-IsSized period (some zero) = calculate_interval-count period
step_of-IsSized period (some (suc c)) = ground (arith, interval_in_ms-count period (suc c))

-- Where the end is after the start, the handler sends a series, whatever the votes are; it has at
-- most as many entries as the query asks for, and if it asks for no number, at least 4 and fewer than
-- 48 for a window from 20 minutes to 48 times 48 weeks. Where the end is before the start, it answers 400.
pub get_proposal_vote_series-sends :
    (number : String → Option ℕ) (weight_map : Dict ℕ) (now : ℕ) (q : VoteSeriesQuery)
    (raw_votes : List String)
    → (start_date now q < end_date now q
        → (series : List SeriesData) × (get_proposal_vote_series number weight_map now q raw_votes
            ≡ send series)
          × IsSized (end_date now q - start_date now q) q.intervals_count (length series))
      × (end_date now q < start_date now q
          → get_proposal_vote_series number weight_map now q raw_votes
            ≡ error 400 "start timestamp cannot be more than end timestamp")
unfolding get_proposal_vote_series
get_proposal_vote_series-sends number weight_map now q raw_votes =
    let start = start_date now q in
    let end = end_date now q in
    let step = step_of (end - start) q.intervals_count in
    let series =
      tabulate ((end - start) / step) 0
        (entry number weight_map q.running_total start step raw_votes) in
    (
      λ forth.
          let sent =
            get_proposal_vote_series-eq-tabulate number weight_map start end step q.running_total
              raw_votes (step_of-positive (end - start) q.intervals_count (omega arith)) in
          (
            series,
            ground (arith, sent),
            subst (IsSized (end - start) q.intervals_count) (sym (length-tabulate _ 0 _))
                (step_of-IsSized (end - start) q.intervals_count),
          ),
      λ back. ground arith,
    )
