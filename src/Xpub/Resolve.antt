-- ===== src/Xpub/Resolve.antt =====
-- `parse` and `scan` of api/src/services/XpubService.ts, and what `getXpub` and `getXpubAddresses`
-- of api/src/controllers/XpubController.ts answer from them.
pub mod InFlight
pub mod Combined
use Prim.Native.String as Text
use dashscan.Prelude.{
  ℕ, Bool, String, Option, none, some, List, [], ◌∷◌, ◌++◌, map, ◌==◌, str_eq, if◌then◌else◌,
  length, ◌⊎◌, inl, inr,
}
use dashscan.Xpub.{DerivedAddress, XpubBranchCache, ScannedBranch, xpub_branches}
use dashscan.Xpub.Scan.{Wallet, scan_branch}

pub data Result {ℓ} (A : Type ℓ) : Type ℓ where
  ok : A → Result A
  invalid_xpub : String → Result A

-- HDKey of @scure/bip32 (a node, or the message of what it throws), and `trim` of the language.
pub record HdKeys : Type 1 where
  pub Node : Type 0
  pub trim : String → String
  pub from_extended_key : String → Node ⊎ String
  pub has_private_key : Node → Bool

unfoldable pub parse : (h : HdKeys) → (network : String) → String → Result h.Node
parse h network xpub = elim (h.from_extended_key (h.trim xpub)) [
  | inr message ↦ invalid_xpub (
      if str_eq message "Version mismatch"
      then Text.◌++◌ "Not a " (Text.◌++◌ network " extended public key")
      else message)
  | inl node ↦
      if h.has_private_key node
      then invalid_xpub "Extended private keys are not accepted"
      else ok node
]

pub record ResolvedXpub : Type 0 where
  pub addresses : List DerivedAddress
  pub address_ids : List ℕ
  pub next_unused : List (ℕ × Option ℕ)

-- nextUnused[branch] = v, and nextUnused[branch] ?? null
unfoldable pub set_next : ℕ → Option ℕ → List (ℕ × Option ℕ) → List (ℕ × Option ℕ)
set_next b v [] = (b, v) ∷ []
set_next b v ((c, u) ∷ m) = if c == b then (b, v) ∷ m else (c, u) ∷ set_next b v m

unfoldable pub get_next : ℕ → List (ℕ × Option ℕ) → Option ℕ
get_next b [] = none
get_next b ((c, u) ∷ m) = if c == b then u else get_next b m

-- The loop over the branches that `scan` ends with.
unfoldable pub combine : ResolvedXpub → List ScannedBranch → ResolvedXpub
unfolding set_next
combine acc [] = acc
combine acc (scanned ∷ rest) =
    combine
      (record {
        addresses = acc.addresses ++ scanned.addresses;
        address_ids = acc.address_ids ++ scanned.address_ids;
        next_unused = set_next scanned.branch scanned.first_unused acc.next_unused;
      })
      rest

-- A key: for each branch the addresses it derives with the table, and the cached entry.
pub record Account : Type 0 where
  pub wallet : ℕ → Wallet
  pub cached : ℕ → Option XpubBranchCache

unfoldable pub scan_account : Account → ℕ → ResolvedXpub
unfolding combine
scan_account a gap_limit =
    combine (record { addresses = []; address_ids = []; next_unused = [] })
      (map (λ b. (scan_branch (a.wallet b) b (a.cached b) gap_limit).0) xpub_branches)

-- The key first: one that is none, or a private one, is refused before anything is derived.
unfoldable pub scan :
    (h : HdKeys) → (network : String) → (h.Node → Account) → String → ℕ → Result ResolvedXpub
unfolding parse scan_account
scan h network account_of xpub gap_limit = elim (parse h network xpub) [
  | ok node ↦ ok (scan_account (account_of node) gap_limit)
  | invalid_xpub message ↦ invalid_xpub message
]

-- The part of the summary that `getXpub` fills in from the resolved key.
pub record XpubSummary : Type 0 where
  pub address_count : ℕ
  pub used_address_count : ℕ
  pub receive : Option ℕ
  pub change : Option ℕ

unfoldable pub get_xpub : ResolvedXpub → XpubSummary
unfolding get_next
get_xpub resolved = record {
  address_count = length resolved.addresses;
  used_address_count = length resolved.address_ids;
  receive = get_next 0 resolved.next_unused;
  change = get_next 1 resolved.next_unused;
}
