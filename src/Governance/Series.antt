-- ===== src/Governance/Series.antt =====
-- `getProposalVoteSeries` of api/src/dao/GovernanceDAO.ts: the votes on a proposal by equal steps of
-- time. Times are whole milliseconds, from 1970 on.
pub mod Steps
pub mod Windows
pub mod Totals
use dashscan.Prelude.{
  ℕ, zero, suc, ◌+◌, ◌-◌, ◌*◌, ◌/◌, Bool, true, false, String, Option, none, some, List, [], ◌∷◌,
  map, leb, ltb, ◌==◌, if◌then◌else◌, length, get_or_else, any, str_eq,
}
use dashscan.Prelude.Maps.{Dict, lookup}
use dashscan.Governance.Votes.{ProposalVote, from_raw, Tally, no_votes, add_vote, plus}
use text.Mathlib.Text.{starts_with}

pub record Bucket : Type 0 where
  pub from : ℕ
  pub votes : Tally

abbrev pub empty_bucket : ℕ → Bucket
empty_bucket from = record { from = from; votes = no_votes }

-- for (let to = startMs + stepMs; to <= endMs; to += stepMs)
unfoldable pub push_buckets : ℕ → ℕ → ℕ → ℕ → List Bucket
push_buckets zero step end to = []
push_buckets (suc fuel) step end to =
    let rest = push_buckets fuel step end (to + step) in
    if leb to end then empty_bucket (to - step) ∷ rest else []

-- A step is at least a millisecond, so there are at most `end - start` rounds.
unfoldable pub buckets_of : ℕ → ℕ → ℕ → List Bucket
unfolding push_buckets
buckets_of start end step =
    if ltb 0 step then push_buckets (end - start) step end (start + step) else []

-- What `Math.ceil((time - startMs) / stepMs) - 1` is: a number below 0, an index, or, where the
-- step is 0, infinity or NaN.
pub data Index : Type 0 where
  before : Index
  at : ℕ → Index
  infinite : Index
  not_a_number : Index

unfoldable pub index_of : ℕ → ℕ → ℕ → Index
index_of start step time =
    if ltb time start
    then before
    else if ltb 0 step
    then if leb time start then before else at ((time - start - 1) / step)
    else if ltb start time
    then infinite
    else not_a_number

-- The tally before the window and the buckets, as the loop goes on.
pub record Counts : Type 0 where
  pub base : Tally
  pub buckets : List Bucket

-- buckets[index], whose votes are changed in place
unfoldable pub add_at : ℕ → (Tally → Tally) → List Bucket → List Bucket
add_at i f [] = []
add_at zero f (b ∷ bs) = record b { votes = f b.votes } ∷ bs
add_at (suc i) f (b ∷ bs) = b ∷ add_at i f bs

abbrev pub is_outcome : String → Bool
is_outcome outcome = any (str_eq outcome) ("yes" ∷ "no" ∷ "abstain" ∷ [])

-- The rest of one round. `none` is the TypeError of `undefined.yes`.
unfoldable pub place_vote : String → ℕ → Index → Counts → Option Counts
unfolding add_vote add_at
place_vote outcome weight before c = some (record c { base = add_vote outcome weight c.base })
place_vote outcome weight infinite c = some c
place_vote outcome weight not_a_number c = if is_outcome outcome then none else some c
place_vote outcome weight (at i) c =
    if leb (length c.buckets) i
    then some c
    else some (record c { buckets = add_at i (add_vote outcome weight) c.buckets })

-- weightMap[outpoint] ?? 1
abbrev pub weight_in : Dict ℕ → String → ℕ
weight_in weight_map outpoint = get_or_else (lookup outpoint weight_map) 1

-- The votes that the series counts.
abbrev pub is_funding : Option ProposalVote → Option ProposalVote
is_funding none = none
is_funding (some v) = if starts_with v.signal "funding" then some v else none

pub record SeriesData : Type 0 where
  pub timestamp : ℕ
  pub votes : Tally

module _ (number : String → Option ℕ) (weight_map : Dict ℕ) where
  abbrev pub count_vote : ℕ → ℕ → Option ProposalVote → Counts → Option Counts
  count_vote start step none c = some c
  count_vote start step (some v) c =
      place_vote v.outcome (weight_in weight_map v.outpoint) (index_of start step v.time) c

  unfoldable pub count_votes : ℕ → ℕ → List String → Option Counts → Option Counts
  unfolding place_vote index_of from_raw
  count_votes start step raws none = none
  count_votes start step [] (some c) = some c
  count_votes start step (raw ∷ raws) (some c) =
      count_votes start step raws (count_vote start step (is_funding (from_raw number raw)) c)

  unfoldable pub to_series : Bool → Tally → List Bucket → List SeriesData
  to_series running_total total [] = []
  to_series running_total total (b ∷ bs) =
      let total' = if running_total then plus total b.votes else total in
      record { timestamp = b.from; votes = if running_total then total' else b.votes }
      ∷ to_series running_total total' bs

  abbrev series_of : Bool → Option Counts → Option (List SeriesData)
  series_of running_total none = none
  series_of running_total (some c) = some (to_series running_total c.base c.buckets)

  unfoldable pub get_proposal_vote_series :
      ℕ → ℕ → ℕ → Bool → List String → Option (List SeriesData)
  unfolding buckets_of count_votes to_series
  get_proposal_vote_series start end step running_total raw_votes = series_of running_total (
      count_votes start step raw_votes
        (some (record { base = no_votes; buckets = buckets_of start end step })))
