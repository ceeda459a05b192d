-- ===== src/Xpub.antt =====
-- The data of api/src/types/xpub.ts and the constants of api/src/constants.ts that the scan uses.
pub mod Derive
pub mod Scan
pub mod Resolve
mod Tests
use dashscan.Prelude.{ℕ, zero, Bool, String, Option, List, ◌∷◌, []}
use dashscan.Prelude.Maps.{Dict}

pub record DerivedAddress : Type 0 where
  pub address : String
  pub branch : ℕ
  pub index : ℕ
  pub used : Bool
  pub address_id : Option ℕ

pub record XpubBranchCache : Type 0 where
  pub derived : List String
  pub ids : Dict ℕ

pub record ScannedBranch : Type 0 where
  pub branch : ℕ
  pub addresses : List DerivedAddress
  pub address_ids : List ℕ
  pub first_unused : Option ℕ

abbrev pub xpub_branches : List ℕ
xpub_branches = 0 ∷ 1 ∷ []

abbrev pub xpub_max_addresses_per_branch : ℕ
xpub_max_addresses_per_branch = 5000

abbrev pub xpub_derivation_batch_size : ℕ
xpub_derivation_batch_size = 100
