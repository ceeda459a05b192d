-- ===== src/Superblocks/Around.antt =====
-- Where the superblocks and the deadline are.
use dashscan.Prelude.{ℕ, ◌+◌, ◌%◌, ◌≤◌, ◌<◌, ◌≡◌, arith}
use dashscan.Superblocks.{
  Network, mainnet, testnet, get_governance_params, get_previous_superblock_height,
  get_next_superblock_height, get_blocks_until_superblock, get_blocks_until_voting_deadline,
}

-- What the functions say of a height, for an interval and a number of blocks that the deadline is early.
abbrev pub IsAround : ℕ → ℕ → ℕ → ℕ → ℕ → ℕ → ℕ → Type 0
IsAround interval early height previous next blocks votes =
    (previous % interval ≡ 0)
    × (next % interval ≡ 0)
    × (previous ≤ height)
    × (height < previous + interval)
    × (height + blocks ≡ next)
    × (blocks < interval)
    × (early ≤ blocks → votes + early ≡ blocks)
    × (blocks < early → votes ≡ 0)

-- The previous superblock is the last one until the height and the next one is the first one from it on,
-- so many blocks away as the function says, fewer than the interval; the deadline for votes is the fixed
-- number of blocks before it, and once that has passed no block is left for votes.
pub superblocks-IsAround :
    (height : ℕ) (network : Network)
    → IsAround
        (get_governance_params network).superblock_interval
        (get_governance_params network).voting_deadline_blocks_before_sb
        height
        (get_previous_superblock_height height network)
        (get_next_superblock_height height network)
        (get_blocks_until_superblock height network)
        (get_blocks_until_voting_deadline height network)
unfolding get_previous_superblock_height get_next_superblock_height get_blocks_until_superblock
    get_blocks_until_voting_deadline
superblocks-IsAround height mainnet = ground arith
superblocks-IsAround height testnet = ground arith
