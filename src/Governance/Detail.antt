-- ===== src/Governance/Detail.antt =====
-- `fromObject` of api/src/models/GovernanceObject.ts with ProposalData and VoteResult, and `getProposalByHash`
-- of api/src/dao/GovernanceDAO.ts. `none` is a field that is null or missing.
pub mod Counts
mod Tests
use dashscan.Prelude.{
  ℕ, zero, suc, ◌*◌, Bool, false, String, Option, none, some, List, [], ◌∷◌, ◌==◌, if◌then◌else◌,
  get_or_else, ℤ, pos, leb_int, is_some, ◌&&◌, not,
}
use mathlib.Core.Option
use dashscan.Prelude.Maps.{Dict, lookup}
use dashscan.Governance.Votes.{ProposalVote, from_raw}
use dashscan.Governance.Proposals.{GovernanceObject, VoteResult, votes_of}

-- What JSON reads of DataString, and the model of it.
pub record ProposalData : Type 0 where
  pub end_epoch : Option ℕ
  pub name : Option String
  pub payment_address : Option String
  pub payment_amount : Option ℕ
  pub start_epoch : Option ℕ
  pub type : Option ℕ
  pub url : Option String

pub record VoteResultRaw : Type 0 where
  pub absolute_yes_count : Option ℤ
  pub yes_count : Option ℕ
  pub no_count : Option ℕ
  pub abstain_count : Option ℕ

abbrev pub result_from_raw : Option VoteResultRaw → Option VoteResult
result_from_raw none = none
result_from_raw (some raw) = some (record {
  absolute_yes_count = get_or_else raw.absolute_yes_count (pos 0);
  yes_count = get_or_else raw.yes_count 0;
  no_count = get_or_else raw.no_count 0;
  abstain_count = get_or_else raw.abstain_count 0;
})

-- The fields that fromObject reads of the answer of Dash Core.
pub record GovernanceObjectDetails : Type 0 where
  pub data_hex : Option String
  pub data_string : Option String
  pub hash : Option String
  pub collateral_hash : Option String
  pub object_type : ℕ
  pub creation_time : ℕ
  pub absolute_yes_count : Option ℤ
  pub yes_count : Option ℕ
  pub no_count : Option ℕ
  pub abstain_count : Option ℕ
  pub local_validity : Option Bool
  pub is_valid_reason : Option String
  pub funding_result : Option VoteResultRaw
  pub delete_result : Option VoteResultRaw
  pub endorsed_result : Option VoteResultRaw

-- GovernanceObjectType[n]
abbrev pub object_type_of : ℕ → Option String
object_type_of n =
    if n == 0
    then some "Unknown"
    else if n == 1
    then some "Proposal"
    else if n == 2
    then some "Trigger"
    else none

-- data?.field
abbrev pub of_data {ℓ} : {A : Type ℓ} → (ProposalData → Option A) → Option ProposalData → Option A
of_data f none = none
of_data f (some data') = f data'

abbrev pub make_object : GovernanceObjectDetails → Option ProposalData → GovernanceObject
make_object obj d = record {
  data_hex = obj.data_hex;
  end_epoch = of_data (λ x. x.end_epoch) d;
  start_epoch = of_data (λ x. x.start_epoch) d;
  name = of_data (λ x. x.name) d;
  payment_address = of_data (λ x. x.payment_address) d;
  payment_amount = of_data (λ x. x.payment_amount) d;
  type = of_data (λ x. x.type) d;
  url = of_data (λ x. x.url) d;
  hash = obj.hash;
  collateral_hash = obj.collateral_hash;
  object_type = object_type_of obj.object_type;
  creation_time = some (obj.creation_time * 1000);
  absolute_yes_count = obj.absolute_yes_count;
  yes_count = obj.yes_count;
  no_count = obj.no_count;
  abstain_count = obj.abstain_count;
  local_validity = obj.local_validity;
  is_valid_reason = obj.is_valid_reason;
  enough_votes = none;
  enough_funds = none;
  funding_result = result_from_raw obj.funding_result;
  delete_result = result_from_raw obj.delete_result;
  endorsed_result = result_from_raw obj.endorsed_result;
  votes = none;
}

-- The four counts of the funding result, where the object has no count of its own.
abbrev pub with_counts : Option VoteResult → GovernanceObject → GovernanceObject
with_counts none p = p
with_counts (some result) p = record p {
  absolute_yes_count = some result.absolute_yes_count;
  yes_count = some result.yes_count;
  no_count = some result.no_count;
  abstain_count = some result.abstain_count;
}

abbrev pub fill_counts : Option ℤ → GovernanceObject → GovernanceObject
fill_counts none p = with_counts p.funding_result p
fill_counts (some count) p = p

-- `parse` is JSON on DataString: it throws, or reads null or an object.
module _ (parse : String → Option (Option ProposalData)) (number : String → Option ℕ) where
  abbrev pub data_of : Option String → Option (Option ProposalData)
  data_of none = some none
  data_of (some text) = parse text

  unfoldable pub from_object : GovernanceObjectDetails → Option GovernanceObject
  from_object obj = Option.map (make_object obj) (data_of obj.data_string)

  abbrev pub attribute : Dict String → Option ProposalVote → List ProposalVote → List ProposalVote
  attribute hash_map none votes = votes
  attribute hash_map (some v) votes = record v { pro_tx_hash = lookup v.outpoint hash_map } ∷ votes

  unfoldable pub attributed : Dict String → List String → List ProposalVote
  unfolding from_raw
  attributed hash_map [] = []
  attributed hash_map (raw ∷ raws) =
      attribute hash_map (from_raw number raw) (attributed hash_map raws)

  abbrev pub judged : ℕ → GovernanceObject → GovernanceObject
  judged required p = record p { enough_votes = some (leb_int (pos required) (votes_of p)) }

  abbrev pub complete : ℕ → Dict String → List String → GovernanceObject → GovernanceObject
  complete required hash_map raw_votes p =
      record (judged required (fill_counts p.absolute_yes_count p)) {
        votes = some (attributed hash_map raw_votes);
      }

  -- The inner `none` is a proposal that the node does not know, the outer one an error.
  unfoldable pub get_proposal_by_hash :
      Option GovernanceObjectDetails
      → ℕ
      → List String
      → Dict String
      → Option (Option GovernanceObject)
  unfolding from_object attributed
  get_proposal_by_hash none required raw_votes hash_map = some none
  get_proposal_by_hash (some raw) required raw_votes hash_map =
      Option.map (λ p. some (complete required hash_map raw_votes p)) (from_object raw)
