-- ===== src/Governance/Detail/Counts.antt =====
-- The counts and the votes of one proposal.
use dashscan.Prelude.{
  ℕ, ◌+◌, ◌≡◌, refl, ap, ◌∙◌, String, Option, none, some, List, [], ◌∷◌, arith, get_or_else,
  or_else, ℤ, pos, leb_int, sum_of,
}
use mathlib.Core.Option
use dashscan.Prelude.Maps.{Dict, lookup}
use dashscan.Governance.Votes.{ProposalVote, from_raw}
use dashscan.Governance.Proposals.{GovernanceObject, VoteResult}
use dashscan.Governance.Detail.{
  ProposalData, GovernanceObjectDetails, result_from_raw, attribute, data_of, make_object,
  fill_counts, with_counts, from_object, attributed, complete, get_proposal_by_hash,
}

abbrev absolute_of : Option VoteResult → Option ℤ
absolute_of none = none
absolute_of (some result) = some result.absolute_yes_count

-- The node's own count, or that of the funding votes.
abbrev pub counted : GovernanceObjectDetails → Option ℤ
counted obj = or_else obj.absolute_yes_count (absolute_of (result_from_raw obj.funding_result))

-- A measure of a vote with the masternode that its outpoint belongs to.
abbrev pub measure : (ProposalVote → ℕ) → Dict String → Option ProposalVote → ℕ
measure f hash_map none = 0
measure f hash_map (some v) = f (record v { pro_tx_hash = lookup v.outpoint hash_map })

abbrev pub votes_in : GovernanceObject → List ProposalVote
votes_in p = get_or_else p.votes []

sum_of-attribute :
    (parse : String → Option (Option ProposalData)) (number : String → Option ℕ)
    (f : ProposalVote → ℕ) (hash_map : Dict String) (v : Option ProposalVote)
    (votes : List ProposalVote)
    → sum_of f (attribute parse number hash_map v votes) ≡ measure f hash_map v + sum_of f votes
sum_of-attribute parse number f hash_map none votes = omega arith
sum_of-attribute parse number f hash_map (some v) votes = refl

sum_of-attributed :
    (parse : String → Option (Option ProposalData)) (number : String → Option ℕ)
    (f : ProposalVote → ℕ) (hash_map : Dict String) (raws : List String)
    → sum_of f (attributed parse number hash_map raws)
      ≡ sum_of (λ raw. measure f hash_map (from_raw number raw)) raws
unfolding attributed
sum_of-attributed parse number f hash_map [] = refl
sum_of-attributed parse number f hash_map (raw ∷ raws) =
    sum_of-attribute parse number f hash_map (from_raw number raw)
      (attributed parse number hash_map raws)
    ∙ ap (λ n. measure f hash_map (from_raw number raw) + n)
        (sum_of-attributed parse number f hash_map raws)

fill_counts-absolute :
    (own : Option ℤ) (result : Option VoteResult) (p : GovernanceObject)
    → p.absolute_yes_count ≡ own
    → p.funding_result ≡ result
    → (fill_counts own p).absolute_yes_count ≡ or_else own (absolute_of result)
fill_counts-absolute none none p e r = ap (λ o. (with_counts o p).absolute_yes_count) r ∙ e
fill_counts-absolute none (some result) p e r = ap (λ o. (with_counts o p).absolute_yes_count) r
fill_counts-absolute (some count) result p e r = e

-- Where DataString can be read, the answer is a proposal: its count is the node's own or, without one, that
-- of the funding votes; it has enough votes if that count, or 0, reaches what is required; and its votes
-- are those of the node's that can be read, each as often and no others, so that any measure of votes
-- sums up to the same, with the masternode that the map of outpoints gives.
pub get_proposal_by_hash-counts :
    (parse : String → Option (Option ProposalData)) (number : String → Option ℕ)
    (obj : GovernanceObjectDetails) (required : ℕ) (raw_votes : List String)
    (hash_map : Dict String) (d : Option ProposalData)
    → data_of parse number obj.data_string ≡ some d
    → (p : GovernanceObject) × (get_proposal_by_hash parse number
          (some obj)
          required
          raw_votes
          hash_map
        ≡ some (some p))
      × (p.absolute_yes_count ≡ counted obj)
      × (p.enough_votes ≡ some (leb_int (pos required) (get_or_else (counted obj) (pos 0))))
      × ((f : ProposalVote → ℕ)
          → sum_of f (votes_in p)
            ≡ sum_of (λ raw. measure f hash_map (from_raw number raw)) raw_votes)
unfolding get_proposal_by_hash from_object
get_proposal_by_hash-counts parse number obj required raw_votes hash_map d e =
    let made = make_object obj d in
    let count =
      fill_counts-absolute obj.absolute_yes_count (result_from_raw obj.funding_result) made refl
        refl in
    (
      complete parse number required hash_map raw_votes made,
      ap
          (λ o.
            Option.map (λ p. some (complete parse number required hash_map raw_votes p))
              (Option.map (make_object obj) o))
          e,
      count,
      ap (λ o. some (leb_int (pos required) (get_or_else o (pos 0)))) count,
      λ f. sum_of-attributed parse number f hash_map raw_votes,
    )
