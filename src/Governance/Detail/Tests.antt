-- ===== src/Governance/Detail/Tests.antt =====
-- One proposal whose count is that of its funding votes.
use dashscan.Prelude.{
  ℕ, ◌≡◌, refl, true, String, Option, none, some, List, [], ◌∷◌, get_or_else, pos, leb_int, sum_of,
}
use dashscan.Prelude.Maps.{Dict}
use dashscan.Governance.Votes.{ProposalVote, from_raw}
use dashscan.Governance.Proposals.{GovernanceObject}
use dashscan.Governance.Detail.{ProposalData, GovernanceObjectDetails, get_proposal_by_hash}
use dashscan.Governance.Detail.Counts.{counted, measure, votes_in, get_proposal_by_hash-counts}

abbrev parse : String → Option (Option ProposalData)
parse text = some none

abbrev number : String → Option ℕ
number text = some 5

abbrev object : GovernanceObjectDetails
object = record {
  data_hex = none;
  data_string = some "{}";
  hash = some "h";
  collateral_hash = none;
  object_type = 1;
  creation_time = 5;
  absolute_yes_count = none;
  yes_count = none;
  no_count = none;
  abstain_count = none;
  local_validity = some true;
  is_valid_reason = none;
  funding_result = some (record {
    absolute_yes_count = some (pos 3);
    yes_count = some 4;
    no_count = some 1;
    abstain_count = none;
  });
  delete_result = none;
  endorsed_result = none;
}

abbrev raw_votes : List String
raw_votes = "a-0:5:yes:funding" ∷ "broken" ∷ []

abbrev hash_map : Dict String
hash_map = ("a-0", "p") ∷ []

own_count : counted object ≡ some (pos 3)
own_count = refl

get_proposal_by_hash-counts_example :
    (p : GovernanceObject) × (get_proposal_by_hash parse number (some object) 3 raw_votes hash_map
      ≡ some (some p))
    × (p.absolute_yes_count ≡ counted object)
    × (p.enough_votes ≡ some (leb_int (pos 3) (get_or_else (counted object) (pos 0))))
    × ((f : ProposalVote → ℕ)
        → sum_of f (votes_in p)
          ≡ sum_of (λ raw. measure f hash_map (from_raw number raw)) raw_votes)
get_proposal_by_hash-counts_example =
    get_proposal_by_hash-counts parse number object 3 raw_votes hash_map none refl
