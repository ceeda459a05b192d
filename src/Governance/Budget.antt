-- ===== src/Governance/Budget.antt =====
-- `getBudgetInfo` of api/src/controllers/GovernanceController.ts, without the voting deadline, which is
-- a quotient of floats. Heights, times and amounts are whole numbers.
pub mod Totals
use dashscan.Prelude.{
  ℕ, zero, suc, ◌+◌, ◌-◌, ◌*◌, ◌/◌, Bool, true, false, ◌&&◌, String, Option, none, some, List, [],
  ◌∷◌, ◌++◌, map, leb, ltb, if◌then◌else◌, get_or_else, ℤ, pos, minus, leb_int, sort_by, sum_of,
  keep, length, str_eq,
}
use dashscan.Governance.Proposals.{GovernanceObject, amount_of, votes_of}
use dashscan.Governance.Controller.{Response, error, send, throws}

pub record Superblock : Type 0 where
  pub height : ℕ
  pub timestamp : Option ℕ

pub record BudgetInfo : Type 0 where
  pub total_budget : ℕ
  pub total_proposals : ℕ
  pub total_requested : ℕ
  pub enough_votes_total : ℕ
  pub enough_votes_count : ℕ
  pub enough_funds_total : ℕ
  pub enough_funds_count : ℕ
  pub enough_votes_and_funds_total : ℕ
  pub enough_votes_and_funds_count : ℕ
  pub remaining_all_pass : ℤ
  pub remaining_enough_votes : ℤ
  pub remaining_enough_votes_and_funds : ℤ
  pub required_votes : ℕ

-- The filters whose test adds to `running`: what they keep, and `running` at their end.
unfoldable pub filter_funds : ℕ → ℕ → List GovernanceObject → List GovernanceObject × ℕ
filter_funds total_budget running [] = ([], running)
filter_funds total_budget running (p ∷ ps) =
    let (taken, end) = filter_funds total_budget (running + amount_of p) ps in
    let skipped = filter_funds total_budget running ps in
    if leb (running + amount_of p) total_budget then (p ∷ taken, end) else skipped

-- p.objectType === 'Proposal' && (p.endEpoch ?? 0) > nextSuperblockTimeSec
abbrev pub is_current : ℕ → GovernanceObject → Bool
is_current next_superblock_time_sec p =
    str_eq (get_or_else p.object_type "") "Proposal"
    && ltb next_superblock_time_sec (get_or_else p.end_epoch 0)

-- b.absoluteYesCount - a.absoluteYesCount is at most 0, where null counts as 0
abbrev pub is_ahead : GovernanceObject → GovernanceObject → Bool
is_ahead a b = leb_int (votes_of b) (votes_of a)

unfoldable pub budget_info : ℕ → ℕ → List GovernanceObject → BudgetInfo
unfolding filter_funds
budget_info total_budget required proposals =
    let enough_votes = keep (λ p. leb_int (pos required) (votes_of p)) proposals in
    let (enough_funds, running) = filter_funds total_budget 0 (sort_by is_ahead proposals) in
    let (both, running_both) = filter_funds total_budget 0 (sort_by is_ahead enough_votes) in
    record {
      total_budget = total_budget;
      total_proposals = length proposals;
      total_requested = sum_of amount_of proposals;
      enough_votes_total = sum_of amount_of enough_votes;
      enough_votes_count = length enough_votes;
      enough_funds_total = running;
      enough_funds_count = length enough_funds;
      enough_votes_and_funds_total = running_both;
      enough_votes_and_funds_count = length both;
      remaining_all_pass = minus total_budget (sum_of amount_of proposals);
      remaining_enough_votes = minus total_budget (sum_of amount_of enough_votes);
      remaining_enough_votes_and_funds = minus total_budget running_both;
      required_votes = required;
    }

-- The call of send that does not return, so that another follows.
abbrev pub sync_error : ℕ → ℕ → List (Response BudgetInfo)
sync_error last_indexed lastsuperblock =
    if ltb last_indexed lastsuperblock
    then error 500
        "Cannot find the last superblock in the database. Please wait if the sync progress is not at 100%."
      ∷ []
    else []

-- Of two calls of send, Fastify sends the first and refuses the second.
abbrev pub first_sent : List (Response BudgetInfo) → Response BudgetInfo
first_sent [] = throws
first_sent (response ∷ refused) = response

-- The part after the first guard, with the two times.
unfoldable pub reply_with : ℕ → ℕ → ℕ → ℕ → ℕ → ℕ → List GovernanceObject → Response BudgetInfo
unfolding budget_info
reply_with height last previous lastsuperblock total_budget required all_proposals =
    let next_superblock_time_sec = (last + (last - previous)) / 1000 in
    let proposals = keep (is_current next_superblock_time_sec) all_proposals in
    first_sent
      (sync_error height lastsuperblock ++ send (budget_info total_budget required proposals) ∷ [])

abbrev pub too_few : Response BudgetInfo
too_few = error 404 "Not enough superblocks indexed to compute next superblock time"

-- The reply to a request, from the superblocks that are indexed last, the latest one first.
unfoldable pub get_budget_info :
    List Superblock → ℕ → ℕ → ℕ → List GovernanceObject → Response BudgetInfo
unfolding reply_with
get_budget_info (last ∷ previous ∷ rest) lastsuperblock total_budget required all_proposals =
    elim last.timestamp [
      | none ↦ too_few
      | some t ↦ elim previous.timestamp [
        | none ↦ too_few
        | some t' ↦ reply_with last.height t t' lastsuperblock total_budget required all_proposals
      ]
    ]
get_budget_info superblocks lastsuperblock total_budget required all_proposals = too_few
