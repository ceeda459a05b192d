-- ===== src/Xpub/Scan/Caching.antt =====
-- The cached entry of a branch over time: scans write it, the indexer adds addresses, Redis drops it.
use dashscan.Prelude.{
  ℕ, ◌<◌, ◌≡◌, refl, Option, none, some, [], ◌∷◌, ◌++◌, String, arith, eq_iff, length, Bool-cases,
  not, ◌||◌, ◌==◌, inl, inr,
}
use dashscan.Prelude.Maps.{
  Dict, lookup, insert, insert_all, IsDistinct, lookup-insert, lookup-insert_all,
}
use dashscan.Xpub.{XpubBranchCache}
use dashscan.Xpub.Scan.{
  Wallet, ScanState, CacheWrite, store, touch, start, cache_write, final, scan_branch,
}
use dashscan.Xpub.Scan.Known.{stored, Agrees, IsSound}
use dashscan.Xpub.Scan.Results.{IsValidRead, final-walk, expected}
use dashscan.Xpub.Scan.GapLimit.{IsGapEnd, scan_branch-gap_limit}

-- The wallet's table and the entry of one of its branches.
pub record World : Type 0 where
  pub wallet : Wallet
  pub cached : Option XpubBranchCache

-- `cache.set` replaces the entry, `cache.touch` leaves what is there.
unfoldable pub apply_write : CacheWrite → Option XpubBranchCache → Option XpubBranchCache
apply_write (store c) entry = some c
apply_write touch entry = entry

-- A row for an address that the table lacks. Rows are never deleted.
abbrev pub add_row : String → ℕ → Wallet → Wallet
add_row a id w = record w { rows = w.rows ++ (a, id) ∷ [] }

pub data Step : World → World → Type 0 where
  scan :
      (v : World) (branch gap_limit : ℕ)
      → Step v (record v {
        cached = apply_write (scan_branch v.wallet branch v.cached gap_limit).1 v.cached;
      })
  index :
      (v : World) (a : String) (id : ℕ)
      → stored v.wallet a ≡ none
      → Step v (record v { wallet = add_row a id v.wallet })
  expire : (v : World) → Step v (record v { cached = none })

pub data Reach (v : World) : World → Type 0 where
  here : Reach v v
  next : {u t : World} → Reach v u → Step u t → Reach v t

insert_all-concat :
    (m d : Dict ℕ) (a : String) (id : ℕ)
    → insert_all m (d ++ (a, id) ∷ []) ≡ insert a id (insert_all m d)
unfolding insert_all
insert_all-concat m [] a id = refl
insert_all-concat m ((k, v) ∷ d) a id = insert_all-concat (insert k v m) d a id

stored-add_row :
    (w : Wallet) (a b : String) (id n : ℕ)
    → stored w a ≡ none
    → stored w b ≡ some n
    → stored (add_row a id w) b ≡ some n
unfolding stored
stored-add_row w a b id n fresh found =
    rw insert_all-concat
      (ground (arith, lookup-insert a b id (insert_all [] w.rows), eq_iff a b, fresh, found))

add_row-IsValidRead :
    (w : Wallet) (a : String) (id : ℕ) (cached : Option XpubBranchCache)
    → stored w a ≡ none
    → IsValidRead w cached
    → IsValidRead (add_row a id w) cached
add_row-IsValidRead w a id none fresh v = tt
add_row-IsValidRead w a id (some c) fresh v = record {
  prefix = v.prefix;
  agrees = λ b n e. stored-add_row w a b id n fresh (v.agrees b n e);
}

copied-Agrees :
    (w : Wallet) (known : Dict ℕ)
    → IsDistinct known
    → Agrees w known
    → Agrees w (insert_all [] known)
unfolding lookup
copied-Agrees w known d h a id e = ground (arith, lookup-insert_all [] known a d, h a id)

-- Whichever call `scanBranch` makes to the cache, it leaves a valid entry.
cache_write-IsValidRead :
    (w : Wallet) (cached : Option XpubBranchCache) (before after : ScanState)
    → IsValidRead w cached
    → IsSound w after
    → IsValidRead w (apply_write (cache_write before after) cached)
unfolding cache_write apply_write
cache_write-IsValidRead w cached before after v h =
    elim (Bool-cases (
      not (length after.derived == length before.derived)
      || not (length after.known == length before.known))) [
        | inl changed ↦
            rw (changed, cache_write, apply_write)
              (record {
                prefix = h.prefix;
                agrees = copied-Agrees w after.known h.distinct h.agrees;
              })
        | inr same ↦ rw (same, cache_write, apply_write) v
      ]

write-IsValidRead :
    (w : Wallet) (branch gap_limit : ℕ) (cached : Option XpubBranchCache)
    → IsValidRead w cached
    → IsValidRead w (apply_write (scan_branch w branch cached gap_limit).1 cached)
unfolding scan_branch
write-IsValidRead w branch gap_limit cached v =
    let (_, ready) = final-walk w cached gap_limit v in
    cache_write-IsValidRead w cached (start cached) (final w cached gap_limit) v ready.sound

Step-IsValidRead :
    {v u : World} → Step v u → IsValidRead v.wallet v.cached → IsValidRead u.wallet u.cached
Step-IsValidRead (scan v branch gap_limit) h =
    write-IsValidRead v.wallet branch gap_limit v.cached h
Step-IsValidRead (index v a id fresh) h = add_row-IsValidRead v.wallet a id v.cached fresh h
Step-IsValidRead (expire v) h = tt

Reach-IsValidRead :
    {v u : World} → Reach v u → IsValidRead v.wallet v.cached → IsValidRead u.wallet u.cached
Reach-IsValidRead here h = h
Reach-IsValidRead (next r s) h = Step-IsValidRead s (Reach-IsValidRead r h)

-- From a world with no cached entry, after scans with any gap limits, new addresses in the table
-- and evictions, in any order: a scan with a positive gap limit answers what the table of that
-- moment alone gives, up to the gap limit's end.
pub reached-gap_limit :
    (w : Wallet) (v : World) (branch gap_limit : ℕ)
    → Reach (record { wallet = w; cached = none }) v
    → 0 < gap_limit
    → (e : ℕ) × ((scan_branch v.wallet branch v.cached gap_limit).0 ≡ expected v.wallet branch e)
      × IsGapEnd v.wallet gap_limit e
reached-gap_limit w v branch gap_limit r g =
    scan_branch-gap_limit v.wallet branch v.cached gap_limit (Reach-IsValidRead r tt) g
