-- ===== src/Xpub/Derive.antt =====
-- `brancher` of api/src/services/XpubService.ts: BIP32's public derivation over one branch. The
-- hash, the curve and the address encoding are third-party code, and parameters here.
use dashscan.Prelude.{
  ℕ, zero, suc, ◌+◌, ◌%◌, ◌^◌, ◌≤◌, ◌<◌, ◌≡◌, refl, ap, Bool, Option, none, some, List, [], ◌∷◌,
  ◌++◌, String, arith, ◌==◌, if◌then◌else◌, tabulate, append-nil, append_assoc, ◌∙◌, sym, dec_lt,
}

-- The key material of a branch: what hmac-sha512 and `Fn.fromBytes` give at a 32-bit index (none if
-- the tweak is out of range), the sums with the parent point, and the encoded address of a point.
pub record Curve : Type 1 where
  pub Point : Type 0
  pub point : Point
  pub tweak : ℕ → Option ℕ
  pub add_base : ℕ → Point
  pub is_zero : Point → Bool
  pub address : Point → String

module _ (c : Curve) where
  abbrev nonzero : c.Point → Option c.Point
  nonzero p = if c.is_zero p then none else some p

  -- The body of the `try`; `setUint32` keeps the index modulo 2^32.
  unfoldable pub child_at : ℕ → Option c.Point
  child_at index = elim (c.tweak (index % 2 ^ 32)) [
    | none ↦ none
    | some t ↦ nonzero (if t == 0 then c.point else c.add_base t)
  ]

  -- The fuel is the depth of the stack; `none` is its overflow.
  unfoldable pub child_public_key : ℕ → ℕ → Option c.Point
  child_public_key zero index = none
  child_public_key (suc fuel) index = elim (child_at index) [
    | some p ↦ some p
    | none ↦ child_public_key fuel (index + 1)
  ]

  -- The loop over the indices: `n` are left, `addresses` are pushed.
  unfoldable pub derive_from : ℕ → ℕ → ℕ → List String → Option (List String)
  derive_from fuel index zero addresses = some addresses
  derive_from fuel index (suc n) addresses = elim (child_public_key fuel index) [
    | none ↦ none
    | some p ↦ derive_from fuel (index + 1) n (addresses ++ c.address p ∷ [])
  ]

  unfoldable pub derive : ℕ → ℕ → ℕ → Option (List String)
  unfolding derive_from
  derive fuel from count = derive_from fuel from count []

  -- If j is the first index from i on that has a valid child, and the stack is deep enough for the
  -- retries, the key of index i is the child at j.
  pub child_public_key-least :
      (fuel i j : ℕ) (p : c.Point)
      → i ≤ j
      → j < i + fuel
      → ((k : ℕ) → i ≤ k → k < j → child_at k ≡ none)
      → child_at j ≡ some p
      → child_public_key fuel i ≡ some p
  unfolding child_public_key
  child_public_key-least zero i j p h f skipped found = absurd (omega arith)
  child_public_key-least (suc fuel) i j p h f skipped found = elim (dec_lt i j) [
    | yes before ↦
        let none_here = skipped i (omega arith) before in
        rw (none_here, child_public_key)
          (child_public_key-least fuel (i + 1) j p (omega arith) (omega arith)
            (λ k q r. skipped k (omega arith) r) found)
    | no here ↦
        let e : child_at i ≡ some p = ap child_at {x = i} {y = j} (omega arith) ∙ found in
        rw (e, child_public_key) refl
  ]

  derive_from-eq :
      (fuel index n : ℕ) (addresses : List String) (child : ℕ → c.Point)
      → ((k : ℕ) → index ≤ k → k < index + n → child_public_key fuel k ≡ some (child k))
      → derive_from fuel index n addresses
        ≡ some (addresses ++ tabulate n index (λ k. c.address (child k)))
  unfolding derive_from
  derive_from-eq fuel index zero addresses child h = ap some (sym (append-nil _))
  derive_from-eq fuel index (suc n) addresses child h =
      let e : index + 1 ≡ suc index = omega arith in
      rw (h index (omega arith) (omega arith), derive_from, e)
        (derive_from-eq fuel (suc index) n _ child (λ k p q. h k (omega arith) (omega arith))
          ∙ ap some (append_assoc addresses _ _))

  -- Where every index of the range has a key, `derive(from, count)` is the addresses of the keys of
  -- from, …, from + count - 1, in order.
  pub derive-eq-tabulate :
      (fuel from count : ℕ) (child : ℕ → c.Point)
      → ((k : ℕ) → from ≤ k → k < from + count → child_public_key fuel k ≡ some (child k))
      → derive fuel from count ≡ some (tabulate count from (λ k. c.address (child k)))
  unfolding derive
  derive-eq-tabulate fuel from count child h = derive_from-eq fuel from count [] child h
