-- ===== src/Superblocks.antt =====
-- The heights of frontend/src/lib/governance.ts: the superblocks around a height, and the deadline for votes.
-- Heights are numbers from 0 on; the functions that give times or quotients are left out.
pub mod Around
mod Tests
use dashscan.Prelude.{
  ℕ, ◌+◌, ◌-◌, ◌*◌, ◌/◌, String, Option, none, some, ltb, str_eq, if◌then◌else◌, ℤ, minus, max,
}

pub data Network : Type 0 where
  mainnet : Network
  testnet : Network

pub record GovernanceParams : Type 0 where
  pub superblock_interval : ℕ
  pub voting_deadline_blocks_before_sb : ℕ

abbrev pub get_governance_params : Network → GovernanceParams
get_governance_params mainnet = record {
  superblock_interval = 16616;
  voting_deadline_blocks_before_sb = 1662;
}
get_governance_params testnet = record {
  superblock_interval = 24;
  voting_deadline_blocks_before_sb = 2;
}

abbrev pub resolve_network_from_chain : Option String → Network → Network
resolve_network_from_chain none fallback = fallback
resolve_network_from_chain (some chain) fallback =
    if str_eq chain "main" then mainnet else if str_eq chain "test" then testnet else fallback

-- Math.floor(currentHeight / superblockInterval) * superblockInterval
unfoldable pub get_previous_superblock_height : ℕ → Network → ℕ
get_previous_superblock_height current_height network =
    let i = (get_governance_params network).superblock_interval in current_height / i * i

-- Math.ceil(currentHeight / superblockInterval) * superblockInterval
unfoldable pub get_next_superblock_height : ℕ → Network → ℕ
get_next_superblock_height current_height network =
    let i = (get_governance_params network).superblock_interval in
    (current_height + (i - 1)) / i * i

-- A superblock is at the height itself or above it, so the difference is not below 0.
unfoldable pub get_blocks_until_superblock : ℕ → Network → ℕ
unfolding get_next_superblock_height
get_blocks_until_superblock current_height network =
    get_next_superblock_height current_height network - current_height

unfoldable pub get_voting_deadline_height : ℕ → Network → ℤ
unfolding get_next_superblock_height
get_voting_deadline_height current_height network =
    minus (get_next_superblock_height current_height network)
      (get_governance_params network).voting_deadline_blocks_before_sb

-- Math.max(0, cutoff - currentHeight); a cutoff below 0 gives 0.
unfoldable pub get_blocks_until_voting_deadline : ℕ → Network → ℕ
unfolding get_next_superblock_height
get_blocks_until_voting_deadline current_height network =
    get_next_superblock_height current_height network
    - (get_governance_params network).voting_deadline_blocks_before_sb
    - current_height

abbrev pub get_required_votes : ℕ → ℕ
get_required_votes masternode_count = masternode_count / 10 + 1
