-- ===== src/Xpub/Scan.antt =====
-- `scanBranch` of api/src/services/XpubService.ts, with `lookupIds` and AddressesDAO.getAddressIds.
-- `child` is the address that the brancher derives at an index, `rows` the table `addresses`.
pub mod Known
pub mod Rounds
pub mod Results
pub mod GapLimit
pub mod Caching
pub mod Tests
use dashscan.Prelude.{
  ℕ, zero, suc, ◌+◌, ◌-◌, min, Bool, true, false, ◌&&◌, ◌||◌, not, String, Option, none, some, List,
  [], ◌∷◌, ◌++◌, ltb, leb, ◌==◌, str_eq, if◌then◌else◌, is_some, length, get_elem?, take, slice,
  keep, any, tabulate,
}
use dashscan.Prelude.Maps.{Dict, lookup, insert_all, has}
use dashscan.Xpub.{
  DerivedAddress, XpubBranchCache, ScannedBranch, xpub_max_addresses_per_branch,
  xpub_derivation_batch_size,
}

pub record Wallet : Type 0 where
  pub child : ℕ → String
  pub rows : Dict ℕ

-- SELECT id, address FROM addresses WHERE address IN (…)
unfoldable pub get_address_ids : Dict ℕ → List String → Dict ℕ
get_address_ids rows [] = []
get_address_ids rows (a ∷ addresses) = keep (λ r. any (str_eq r.0) (a ∷ addresses)) rows

unfoldable pub lookup_ids : Wallet → List String → Dict ℕ
unfolding get_address_ids
lookup_ids w addresses = insert_all [] (get_address_ids w.rows addresses)

-- The variables of `scanBranch` that its loops assign.
pub record ScanState : Type 0 where
  pub derived : List String
  pub known : Dict ℕ
  pub checked_to : ℕ
  pub scanned_to : ℕ
  pub run : ℕ

-- One round of the loop of `confirmUpTo`.
unfoldable pub confirm_batch : Wallet → ScanState → ScanState
confirm_batch w s =
    let to = min (s.checked_to + xpub_derivation_batch_size) (length s.derived) in
    let unknown = keep (λ a. not (has a s.known)) (slice s.checked_to to s.derived) in
    record s { known = insert_all s.known (lookup_ids w unknown); checked_to = to }

unfoldable pub confirm_up_to : Wallet → ℕ → ℕ → ScanState → ScanState
confirm_up_to w zero index s = s
confirm_up_to w (suc fuel) index s =
    elim (leb s.checked_to index && ltb s.checked_to (length s.derived)) [
      | true ↦ confirm_up_to w fuel index (confirm_batch w s)
      | false ↦ s
    ]

-- How many addresses a round derives when it has walked over all that it has.
unfoldable pub batch : ℕ → ℕ → ℕ
batch gap_limit have =
    min (if ltb have xpub_derivation_batch_size then gap_limit else xpub_derivation_batch_size)
      (xpub_max_addresses_per_branch - have)

unfoldable pub extend : Wallet → ℕ → ScanState → ScanState
unfolding batch
extend w gap_limit s =
    if leb (length s.derived) s.scanned_to
    then record s {
      derived =
          s.derived ++ tabulate (batch gap_limit (length s.derived)) (length s.derived) w.child;
    }
    else s

-- `known.has(derived[i])`; an index past the end gives `undefined`, which no map holds.
abbrev pub has_at : ScanState → ℕ → Bool
has_at s i = elim (get_elem? s.derived i) [ none ↦ false | some a ↦ has a s.known ]

unfoldable pub visit : ScanState → ScanState
visit s = record s {
  run = if has_at s s.scanned_to then 0 else s.run + 1;
  scanned_to = s.scanned_to + 1;
}

unfoldable pub round : Wallet → ℕ → ScanState → ScanState
unfolding extend visit confirm_up_to
round w gap_limit s =
    let s' = extend w gap_limit s in visit (confirm_up_to w (length s'.derived) s'.scanned_to s')

abbrev pub going : ℕ → ScanState → Bool
going gap_limit s = ltb s.run gap_limit && ltb s.scanned_to xpub_max_addresses_per_branch

unfoldable pub scan_loop : Wallet → ℕ → ℕ → ScanState → ScanState
scan_loop w gap_limit zero s = s
scan_loop w gap_limit (suc fuel) s = elim (going gap_limit s) [
  | true ↦ scan_loop w gap_limit fuel (round w gap_limit s)
  | false ↦ s
]

-- What the end of the scan asks of the cache.
pub data CacheWrite : Type 0 where
  store : XpubBranchCache → CacheWrite
  touch : CacheWrite

abbrev pub cached_derived : Option XpubBranchCache → List String
cached_derived none = []
cached_derived (some c) = c.derived

abbrev pub cached_ids : Option XpubBranchCache → Dict ℕ
cached_ids none = []
cached_ids (some c) = c.ids

abbrev pub start : Option XpubBranchCache → ScanState
start cached = record {
  derived = cached_derived cached;
  known = insert_all [] (cached_ids cached);
  checked_to = 0;
  scanned_to = 0;
  run = 0;
}

unfoldable pub cache_write : ScanState → ScanState → CacheWrite
cache_write before after =
    if not (length after.derived == length before.derived)
      || not (length after.known == length before.known)
    then store (record { derived = after.derived; ids = after.known })
    else touch

-- The loop that builds the answer: `addresses`, `addressIds`, `firstUnused`.
pub record Answer : Type 0 where
  pub addresses : List DerivedAddress
  pub address_ids : List ℕ
  pub first_unused : Option ℕ

abbrev push_id : Option ℕ → List ℕ → List ℕ
push_id none ids = ids
push_id (some id) ids = ids ++ id ∷ []

abbrev note_unused : Option ℕ → ℕ → Option ℕ → Option ℕ
note_unused none index none = some index
note_unused id index first = first

report : Dict ℕ → ℕ → ℕ → List String → Answer → Answer
report known branch index [] acc = acc
report known branch index (address ∷ rest) acc =
    let id = lookup address known in
    report known branch (suc index) rest (record {
      addresses =
          acc.addresses
          ++ record {
            address = address;
            branch = branch;
            index = index;
            used = is_some id;
            address_id = id;
          }
            ∷ [];
      address_ids = push_id id acc.address_ids;
      first_unused = note_unused id index acc.first_unused;
    })

-- The scan at its end. The bound on the rounds is the bound on the addresses.
unfoldable pub final : Wallet → Option XpubBranchCache → ℕ → ScanState
final w cached gap_limit = scan_loop w gap_limit (suc xpub_max_addresses_per_branch) (start cached)

unfoldable pub scan_branch : Wallet → ℕ → Option XpubBranchCache → ℕ → ScannedBranch × CacheWrite
unfolding final report cache_write
scan_branch w branch cached gap_limit =
    let s = final w cached gap_limit in
    let empty : Answer = record { addresses = []; address_ids = []; first_unused = none } in
    let out = report s.known branch 0 (take s.scanned_to s.derived) empty in
    (
      record {
        branch = branch;
        addresses = out.addresses;
        address_ids = out.address_ids;
        first_unused = out.first_unused;
      },
      cache_write (start cached) s,
    )
