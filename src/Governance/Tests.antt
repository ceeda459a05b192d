-- ===== src/Governance/Tests.antt =====
-- The theorems on votes and on the budget, at small inputs.
use dashscan.Prelude.{
  sum_of, if◌then◌else◌, pos, ◌-◌, true, ℕ, ◌-◌, ◌*◌, ◌<◌, ◌≡◌, refl, true, String, Option, none,
  some, List, [], ◌∷◌, str_eq, if◌then◌else◌, length, pos,
}
use dashscan.Prelude.Maps.{Dict, lookup}
use dashscan.Governance.Series.{SeriesData, get_proposal_vote_series}
use dashscan.Governance.Controller
use dashscan.Governance.Controller.{error, send, VoteSeriesQuery, start_date, end_date}
use dashscan.Governance.Controller.Window.{IsSized, get_proposal_vote_series-sends}
use dashscan.Governance.Proposals.{GovernanceObject, amount_of, get_proposals}
use dashscan.Governance.Proposals.Result.{IsFunded, get_proposals-IsFunded}
use dashscan.Governance.Budget.{Superblock, budget_info, get_budget_info}
use dashscan.Governance.Budget.Totals.{IsPaidOut, has_votes, budget_info-IsPaidOut}
use dashscan.Governance.Controller.{error}

abbrev number : String → Option ℕ
number text = if str_eq text "5" then some 5 else if str_eq text "8" then some 8 else none

-- A masternode of the larger kind votes with a weight of 4.
abbrev weights : Dict ℕ
weights = ("a-0", 4) ∷ []

abbrev raw_votes : List String
raw_votes = "a-0:5:yes:funding" ∷ "b-1:8:no:funding" ∷ "b-1:8:no:delete" ∷ "broken" ∷ []

counted :
    get_proposal_vote_series number weights 4000 9000 2000 true raw_votes
    ≡ some (
        record { timestamp = 4000; votes = record { yes = 4; no = 0; abstain = 0 } }
        ∷ record { timestamp = 6000; votes = record { yes = 4; no = 1; abstain = 0 } }
        ∷ [])
unfolding get_proposal_vote_series lookup
counted = refl

-- With a step of 0, a vote at the very start of the window is the TypeError.
no_step : get_proposal_vote_series number weights 5000 5000 0 true raw_votes ≡ none
unfolding get_proposal_vote_series
no_step = refl

abbrev query : VoteSeriesQuery
query = record {
  timestamp_start = some 4000;
  timestamp_end = some 9000;
  intervals_count = some 2;
  running_total = true;
}

get_proposal_vote_series-sends_example :
    (start_date 10000 query < end_date 10000 query
      → (series : List SeriesData) × (Controller.get_proposal_vote_series number weights 10000 query
            raw_votes
          ≡ send series)
        × IsSized
            (end_date 10000 query - start_date 10000 query)
            query.intervals_count
            (length series))
    × (end_date 10000 query < start_date 10000 query
        → Controller.get_proposal_vote_series number weights 10000 query raw_votes
          ≡ error 400 "start timestamp cannot be more than end timestamp")
get_proposal_vote_series-sends_example =
    get_proposal_vote_series-sends number weights 10000 query raw_votes

abbrev proposal : String → ℕ → ℕ → GovernanceObject
proposal name amount count = record {
  data_hex = none;
  start_epoch = none;
  payment_address = none;
  type = none;
  url = none;
  collateral_hash = none;
  abstain_count = none;
  local_validity = none;
  is_valid_reason = none;
  funding_result = none;
  delete_result = none;
  endorsed_result = none;
  votes = none;
  hash = none;
  name = some name;
  object_type = some "Proposal";
  end_epoch = some 100;
  payment_amount = some amount;
  creation_time = none;
  absolute_yes_count = some (pos count);
  yes_count = some count;
  no_count = none;
  enough_votes = none;
  enough_funds = none;
}

abbrev proposals : List GovernanceObject
proposals = proposal "small" 3 10 ∷ proposal "large" 8 20 ∷ proposal "middle" 5 15 ∷ []

get_proposals-IsFunded_example :
    IsFunded 12 (get_proposals (λ a b. true) 12 12 (some "payment_amount") "desc" proposals)
get_proposals-IsFunded_example =
    get_proposals-IsFunded (λ a b. true) 12 12 (some "payment_amount") "desc" proposals

budget_info-IsPaidOut_example :
    IsPaidOut 12
      (λ _. true)
      proposals
      (budget_info 12 12 proposals).enough_funds_total
      (budget_info 12 12 proposals).enough_funds_count
    × IsPaidOut 12
        (has_votes 12)
        proposals
        (budget_info 12 12 proposals).enough_votes_and_funds_total
        (budget_info 12 12 proposals).enough_votes_and_funds_count
    × ((budget_info 12 12 proposals).enough_votes_total
        ≡ sum_of (λ p. if has_votes 12 p then amount_of p else 0) proposals)
    × ((budget_info 12 12 proposals).enough_votes_count
        ≡ sum_of (λ p. if has_votes 12 p then 1 else 0) proposals)
    × ((budget_info 12 12 proposals).remaining_enough_votes_and_funds
        ≡ pos (12 - (budget_info 12 12 proposals).enough_votes_and_funds_total))
budget_info-IsPaidOut_example = budget_info-IsPaidOut 12 12 proposals

abbrev indexed : ℕ → Superblock
indexed height = record { height = height; timestamp = some (height * 1000) }

out_of_sync :
    get_budget_info (indexed 20 ∷ indexed 10 ∷ []) 30 12 12 proposals
    ≡ error 500
        "Cannot find the last superblock in the database. Please wait if the sync progress is not at 100%."
unfolding get_budget_info
out_of_sync = refl
