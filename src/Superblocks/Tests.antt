-- ===== src/Superblocks/Tests.antt =====
-- The superblocks around one height.
use dashscan.Prelude.{◌≡◌, refl}
use dashscan.Superblocks.{
  mainnet, testnet, get_governance_params, get_previous_superblock_height,
  get_next_superblock_height, get_blocks_until_superblock, get_blocks_until_voting_deadline,
}
use dashscan.Superblocks.Around.{IsAround, superblocks-IsAround}

next_one : get_next_superblock_height 25 testnet ≡ 48
unfolding get_next_superblock_height
next_one = refl

superblocks-IsAround_example :
    IsAround
      (get_governance_params mainnet).superblock_interval
      (get_governance_params mainnet).voting_deadline_blocks_before_sb
      2000000
      (get_previous_superblock_height 2000000 mainnet)
      (get_next_superblock_height 2000000 mainnet)
      (get_blocks_until_superblock 2000000 mainnet)
      (get_blocks_until_voting_deadline 2000000 mainnet)
superblocks-IsAround_example = superblocks-IsAround 2000000 mainnet
