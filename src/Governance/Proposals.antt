-- ===== src/Governance/Proposals.antt =====
-- `getProposals` of api/src/dao/GovernanceDAO.ts: which proposals have the votes and the funds, and
-- their order. Payment amounts and the budget are whole numbers of one unit, without the rounding of
-- floats. The objects that one request shares between two lists are told apart by their positions.
pub mod Funds
pub mod Result
use dashscan.Prelude.{
  ℕ, zero, suc, ◌+◌, ◌*◌, ◌/◌, Bool, true, false, String, Option, none, some, List, [], ◌∷◌, map,
  leb, ltb, ◌==◌, str_eq, any, if◌then◌else◌, get_or_else, ℤ, pos, negsuc, leb_int, sort_by,
}
use dashscan.Governance.Votes.{ProposalVote}

-- api/src/models/VoteResult.ts
pub record VoteResult : Type 0 where
  pub absolute_yes_count : ℤ
  pub yes_count : ℕ
  pub no_count : ℕ
  pub abstain_count : ℕ

pub record GovernanceObject : Type 0 where
  pub data_hex : Option String
  pub end_epoch : Option ℕ
  pub start_epoch : Option ℕ
  pub name : Option String
  pub payment_address : Option String
  pub payment_amount : Option ℕ
  pub type : Option ℕ
  pub url : Option String
  pub hash : Option String
  pub collateral_hash : Option String
  pub object_type : Option String
  pub creation_time : Option ℕ
  pub absolute_yes_count : Option ℤ
  pub yes_count : Option ℕ
  pub no_count : Option ℕ
  pub abstain_count : Option ℕ
  pub local_validity : Option Bool
  pub is_valid_reason : Option String
  pub enough_votes : Option Bool
  pub enough_funds : Option Bool
  pub funding_result : Option VoteResult
  pub delete_result : Option VoteResult
  pub endorsed_result : Option VoteResult
  pub votes : Option (List ProposalVote)

abbrev pub amount_of : GovernanceObject → ℕ
amount_of p = get_or_else p.payment_amount 0

abbrev pub votes_of : GovernanceObject → ℤ
votes_of p = get_or_else p.absolute_yes_count (pos 0)

-- MasternodeStats.fromRow: Math.ceil((regular + evo * 4) * 0.1)
abbrev pub required_proposal_votes : ℕ → ℕ → ℕ
required_proposal_votes regular_enabled evo_enabled = (regular_enabled + evo_enabled * 4 + 9) / 10

-- keys.map, on the objects that fromObject makes
abbrev pub judge : ℕ → GovernanceObject → GovernanceObject
judge required p = record p {
  enough_votes = some (leb_int (pos required) (votes_of p));
  enough_funds = some false;
}

-- An object with the position where its mutable record stands.
abbrev pub Ref : Type 0
Ref = ℕ × GovernanceObject

abbrev pub refs_from : ℕ → List GovernanceObject → List Ref
refs_from i [] = []
refs_from i (p ∷ ps) = (i, p) ∷ refs_from (suc i) ps

-- (b.absoluteYesCount ?? 0) - (a.absoluteYesCount ?? 0) is at most 0
abbrev pub is_ranked : Ref → Ref → Bool
is_ranked a b = leb_int (votes_of b.1) (votes_of a.1)

-- The reduce over the ranked list: the positions whose `enoughFunds` is set.
unfoldable pub fund : ℕ → ℕ → List Ref → List ℕ
fund total_budget running [] = []
fund total_budget running ((i, p) ∷ rest) =
    let skipped = fund total_budget running rest in
    let taken = fund total_budget (running + amount_of p) rest in
    if ltb total_budget (running + amount_of p) then skipped else i ∷ taken

abbrev pub set_funds : List ℕ → Ref → GovernanceObject
set_funds funded (i, p) =
    if any (λ j. j == i) funded then record p { enough_funds = some true } else p

-- The comparisons of the last sort, at most 0 and times the direction. `locale` says which of two
-- texts localeCompare lets stand before the other.
module _ (locale : String → String → Bool) where
  abbrev is_numbered : Bool → ℕ → ℕ → Bool
  is_numbered descending a b = if descending then leb b a else leb a b

  abbrev is_named : Bool → String → String → Bool
  is_named descending a b = if descending then locale b a else locale a b

  abbrev pub is_before : String → Bool → GovernanceObject → GovernanceObject → Bool
  is_before order_by descending a b =
      if str_eq order_by "creation_time"
      then is_numbered descending (get_or_else a.creation_time 0) (get_or_else b.creation_time 0)
      else if str_eq order_by "name"
      then is_named descending (get_or_else a.name "") (get_or_else b.name "")
      else if str_eq order_by "votes"
      then is_numbered descending (get_or_else a.yes_count 0 + get_or_else b.no_count 0)
          (get_or_else b.yes_count 0 + get_or_else a.no_count 0)
      else if str_eq order_by "payment_amount"
      then is_numbered descending (amount_of a) (amount_of b)
      else true

  abbrev ordered : Option String → String → List GovernanceObject → List GovernanceObject
  ordered none order proposals = proposals
  ordered (some order_by) order proposals =
      sort_by (is_before order_by (str_eq order "desc")) proposals

  unfoldable pub get_proposals :
      ℕ → ℕ → Option String → String → List GovernanceObject → List GovernanceObject
  unfolding fund
  get_proposals required total_budget order_by order objects =
      let refs = refs_from 0 (map (judge required) objects) in
      let funded = fund total_budget 0 (sort_by is_ranked refs) in
      ordered order_by order (map (set_funds funded) refs)
