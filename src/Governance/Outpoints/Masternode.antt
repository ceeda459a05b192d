-- ===== src/Governance/Outpoints/Masternode.antt =====
-- The votes of a masternode.
use dashscan.Prelude.{ℕ, String, Option, none, some, List, str_eq, if◌then◌else◌, sum_of}
use dashscan.Governance.Votes.{ProposalVote, from_raw}
use dashscan.Governance.Outpoints.{stamp}

module _ (number : String → Option ℕ) (f : ProposalVote → ℕ) where
  -- A measure of the votes from an outpoint, stamped with their masternode and proposal.
  abbrev measure_vote : String → String → String → Option ProposalVote → ℕ
  measure_vote target protx hash none = 0
  measure_vote target protx hash (some v) =
      if str_eq v.outpoint target then f (stamp number protx hash v) else 0

  abbrev pub measure_on : String → String → (String → List String) → String → ℕ
  measure_on target protx raw_votes hash =
      sum_of (λ raw. measure_vote target protx hash (from_raw number raw)) (raw_votes hash)
