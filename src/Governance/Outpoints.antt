-- ===== src/Governance/Outpoints.antt =====
-- `getProtxOutpoint` and `getMasternodeVotes` of api/src/dao/GovernanceDAO.ts: which masternode, of which
-- weight, votes from an outpoint. The index of a collateral is the text that it prints as.
pub mod Cached
pub mod Masternode
mod Tests
use dashscan.Prelude.{
  ℕ, zero, suc, ◌+◌, ◌*◌, Bool, true, false, String, Option, none, some, List, [], ◌∷◌, ◌++◌,
  str_eq, if◌then◌else◌, map,
}
use dashscan.Prelude.Maps.{Dict, lookup, insert}
use dashscan.Cache
use dashscan.Cache.{Redis, Codec}
use dashscan.Governance.Votes.{ProposalVote, from_raw}
use Prim.Native.String as Text

abbrev pub protx_outpoint_map_life_time : ℕ
protx_outpoint_map_life_time = 1000 * 60 * 5

-- The fields of an entry of the protx list that the code reads.
pub record ProTxEntry : Type 0 where
  pub pro_tx_hash : String
  pub collateral_hash : String
  pub collateral_index : String
  pub type : Option String

pub record OutpointMaps : Type 0 where
  pub hash_map : Dict String
  pub weight_map : Dict ℕ

abbrev pub outpoint_of : ProTxEntry → String
outpoint_of entry = Text.◌++◌ (Text.◌++◌ entry.collateral_hash "-") entry.collateral_index

abbrev pub weight_of : ProTxEntry → ℕ
weight_of entry = elim entry.type [ none ↦ 1 | some t ↦ if str_eq t "Evo" then 4 else 1 ]

unfoldable pub build_maps : OutpointMaps → List ProTxEntry → OutpointMaps
build_maps maps [] = maps
build_maps maps (entry ∷ list) =
    build_maps
      (record {
        hash_map = insert (outpoint_of entry) entry.pro_tx_hash maps.hash_map;
        weight_map = insert (outpoint_of entry) (weight_of entry) maps.weight_map;
      })
      list

abbrev pub no_maps : OutpointMaps
no_maps = record { hash_map = []; weight_map = [] }

module _ (r : Redis) (c : Codec OutpointMaps) where
  abbrev pub fetch_maps : ℕ → List ProTxEntry → r.Store → Option OutpointMaps × r.Store
  fetch_maps now [] s = (none, s)
  fetch_maps now (entry ∷ list) s =
      let maps = build_maps no_maps (entry ∷ list) in
      (some maps, Cache.set r c now "protxOutpoint" maps (some protx_outpoint_map_life_time) s)

  abbrev pub or_fetch :
      ℕ → List ProTxEntry → Option OutpointMaps × r.Store → Option OutpointMaps × r.Store
  or_fetch now list (none, s) = fetch_maps now list s
  or_fetch now list (some maps, s) = (some maps, s)

  -- `list` is what the node answers, should it be asked; `none` is the error of an empty answer.
  unfoldable pub get_protx_outpoint : ℕ → List ProTxEntry → r.Store → Option OutpointMaps × r.Store
  unfolding build_maps
  get_protx_outpoint now list s = or_fetch now list (Cache.get r c now "protxOutpoint" s)

-- Object.entries(outpointMap).find(([, hash]) => hash === proTxHash)?.[0]
unfoldable pub find_outpoint : String → Dict String → Option String
find_outpoint pro_tx_hash [] = none
find_outpoint pro_tx_hash ((outpoint, hash) ∷ m) =
    let later = find_outpoint pro_tx_hash m in
    if str_eq hash pro_tx_hash then some outpoint else later

module _ (number : String → Option ℕ) where
  abbrev pub stamp : String → String → ProposalVote → ProposalVote
  stamp pro_tx_hash proposal_hash vote = record vote {
    pro_tx_hash = some pro_tx_hash;
    proposal_hash = some proposal_hash;
  }

  abbrev pub keep_vote :
      String → String → String → Option ProposalVote → List ProposalVote → List ProposalVote
  keep_vote target pro_tx_hash proposal_hash none votes = votes
  keep_vote target pro_tx_hash proposal_hash (some vote) votes =
      if str_eq vote.outpoint target then stamp pro_tx_hash proposal_hash vote ∷ votes else votes

  -- The votes from one outpoint on one proposal.
  unfoldable pub votes_on : String → String → String → List String → List ProposalVote
  unfolding from_raw
  votes_on target pro_tx_hash proposal_hash [] = []
  votes_on target pro_tx_hash proposal_hash (raw ∷ raws) =
      keep_vote target pro_tx_hash proposal_hash (from_raw number raw)
        (votes_on target pro_tx_hash proposal_hash raws)

  -- `raw_votes` is what the node answers for each proposal.
  unfoldable pub all_votes :
      String → String → (String → List String) → List String → List ProposalVote
  unfolding votes_on
  all_votes target pro_tx_hash raw_votes [] = []
  all_votes target pro_tx_hash raw_votes (hash ∷ hashes) =
      votes_on target pro_tx_hash hash (raw_votes hash)
      ++ all_votes target pro_tx_hash raw_votes hashes

  unfoldable pub get_masternode_votes :
      String → OutpointMaps → (String → List String) → List String → List ProposalVote
  unfolding find_outpoint all_votes
  get_masternode_votes pro_tx_hash maps raw_votes proposal_hashes =
      elim (find_outpoint pro_tx_hash maps.hash_map) [
        | none ↦ []
        | some target ↦ all_votes target pro_tx_hash raw_votes proposal_hashes
      ]
