-- ===== src/Prelude/Maps.antt =====
-- A JavaScript `Map` with string keys: its entries in insertion order, a `set` on a known key in
-- place. `Object.entries` and `Object.fromEntries` keep the entries, since no key is a number.
use dashscan.Prelude.Tests.{str_eq, if◌then◌else◌, or_else, is_some}
use dashscan.Prelude.Lists.{keep}
use Prim.Native.String.{String}
use mathlib.Core.Path.{◌≡◌, refl}
use mathlib.Core.Bool.{Bool, false}
use mathlib.Core.Option.{Option, none, some}
use mathlib.Core.List.{List, [], ◌∷◌}
use native.Mathlib.Omega.{arith}
use text.Mathlib.TextEquality.{eq_iff}

abbrev pub Dict {ℓ} : Type ℓ → Type ℓ
Dict V = List (String × V)

module _ {ℓ} {V : Type ℓ} where
  -- m.get(key)
  unfoldable pub lookup : String → Dict V → Option V
  lookup key [] = none
  lookup key ((at, value) ∷ rest) = if str_eq at key then some value else lookup key rest

  -- m.delete(key)
  unfoldable pub remove : String → Dict V → Dict V
  remove key [] = []
  remove key ((at, value) ∷ rest) =
      let others = remove key rest in if str_eq at key then others else (at, value) ∷ others

  -- m.set(key, value)
  unfoldable pub insert : String → V → Dict V → Dict V
  insert key new [] = (key, new) ∷ []
  insert key new ((at, value) ∷ rest) =
      let others = insert key new rest in
      if str_eq at key then (key, new) ∷ rest else (at, value) ∷ others

  -- entries.forEach(([k, v]) => m.set(k, v)); new Map(entries) starts from []
  unfoldable pub insert_all : Dict V → Dict V → Dict V
  insert_all m [] = m
  insert_all m ((k, v) ∷ entries) = insert_all (insert k v m) entries

  -- m.has(k)
  abbrev pub has : String → Dict V → Bool
  has k m = is_some (lookup k m)

  -- A key has what was last set for it, and the others have what they had.
  pub lookup-insert :
      (set_at asked : String) (new : V) (m : Dict V)
      → lookup asked (insert set_at new m)
        ≡ (if str_eq set_at asked then some new else lookup asked m)
  unfolding insert lookup
  lookup-insert set_at asked new [] = refl
  lookup-insert set_at asked new ((at, value) ∷ rest) = ground (
    arith,
    lookup-insert set_at asked new rest,
    eq_iff at asked,
    eq_iff at set_at,
    eq_iff set_at asked,
  )

  pub lookup-remove :
      (k j : String) (m : Dict V)
      → lookup j (remove k m) ≡ (if str_eq k j then none else lookup j m)
  unfolding lookup remove
  lookup-remove k j [] = ground arith
  lookup-remove k j ((i, w) ∷ m) =
      ground (arith, eq_iff k j, eq_iff i k, eq_iff i j, lookup-remove k j m)

  -- No key stands twice.
  abbrev pub IsDistinct : Dict V → Type 0
  IsDistinct [] = Unit
  IsDistinct ((k, v) ∷ m) = (is_some (lookup k m) ≡ false) × IsDistinct m

  pub insert-IsDistinct :
      (k : String) (v : V) (m : Dict V) → IsDistinct m → IsDistinct (insert k v m)
  unfolding insert lookup
  insert-IsDistinct k v [] h = (refl, tt)
  insert-IsDistinct k v ((j, w) ∷ m) h =
      ground (arith, insert-IsDistinct k v m h.1, eq_iff j k, lookup-insert k j v m, eq_iff k j)

  pub insert_all-IsDistinct : (m d : Dict V) → IsDistinct m → IsDistinct (insert_all m d)
  unfolding insert_all
  insert_all-IsDistinct m [] h = h
  insert_all-IsDistinct m ((k, v) ∷ d) h =
      insert_all-IsDistinct (insert k v m) d (insert-IsDistinct k v m h)

  pub lookup-insert_all :
      (m d : Dict V) (a : String)
      → IsDistinct d
      → lookup a (insert_all m d) ≡ or_else (lookup a d) (lookup a m)
  unfolding insert_all lookup
  lookup-insert_all m [] a h = refl
  lookup-insert_all m ((k, v) ∷ d) a h =
      ground (arith, lookup-insert_all (insert k v m) d a h.1, lookup-insert k a v m, eq_iff k a)

  -- What a key maps to after a fold depends on the start only through that key.
  pub insert_all_cong :
      (m m' d : Dict V) (a : String)
      → lookup a m ≡ lookup a m'
      → lookup a (insert_all m d) ≡ lookup a (insert_all m' d)
  unfolding insert_all
  insert_all_cong m m' [] a h = h
  insert_all_cong m m' ((k, v) ∷ d) a h =
      insert_all_cong (insert k v m) (insert k v m') d a
        (ground (arith, lookup-insert k a v m, lookup-insert k a v m'))

  pub lookup-insert_all-keep :
      (p : String → Bool) (rows m : Dict V) (a : String)
      → lookup a (insert_all m (keep (λ r. p r.0) rows))
        ≡ (if p a then lookup a (insert_all m rows) else lookup a m)
  unfolding insert_all
  lookup-insert_all-keep p [] m a = ground arith
  lookup-insert_all-keep p ((k, v) ∷ rows) m a = ground (
    arith,
    lookup-insert_all-keep p rows m a,
    lookup-insert_all-keep p rows (insert k v m) a,
    lookup-insert k a v m,
    eq_iff k a,
    insert_all_cong m (insert k v m) rows a,
  )
