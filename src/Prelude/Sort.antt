-- ===== src/Prelude/Sort.antt =====
-- A stable sort by a comparison, and sums over lists, which it keeps.
use dashscan.Prelude.Tests.{if◌then◌else◌, Bool-cases}
use dashscan.Prelude.Lists.{All}
use Prim.Native.Nat.{ℕ, ◌+◌, ◌≤◌}
use mathlib.Core.Path.{◌≡◌, refl, subst}
use mathlib.Core.Logic.{inl, inr}
use mathlib.Core.Bool.{Bool, true, false}
use mathlib.Core.List.{List, [], ◌∷◌, map}
use native.Mathlib.Omega.{arith}

module _ {ℓ} {A : Type ℓ} where
  abbrev pub sum_of : (A → ℕ) → List A → ℕ
  sum_of f [] = 0
  sum_of f (x ∷ xs) = f x + sum_of f xs

  pub sum_of-All : (f g : A → ℕ) (xs : List A) → All (λ x. f x ≡ g x) xs → sum_of f xs ≡ sum_of g xs
  sum_of-All f g [] h = refl
  sum_of-All f g (x ∷ xs) h = omega (arith, h.0, sum_of-All f g xs h.1)

  pub sum_of_le : (f g : A → ℕ) (xs : List A) → ((x : A) → f x ≤ g x) → sum_of f xs ≤ sum_of g xs
  sum_of_le f g [] h = omega arith
  sum_of_le f g (x ∷ xs) h = omega (arith, h x, sum_of_le f g xs h)

  pub All-weaken {κ κ'} :
      {P : A → Type κ} {Q : A → Type κ'} (xs : List A) → ((x : A) → P x → Q x) → All P xs → All Q xs
  All-weaken [] h a = tt
  All-weaken (x ∷ xs) h a = (h x a.0, All-weaken xs h a.1)

  pub All-map {κ κ' μ} :
      {B : Type μ} (P : B → Type κ) {Q : A → Type κ'} (xs : List A) (f : A → B)
      → ((x : A) → Q x → P (f x))
      → All Q xs
      → All P (map f xs)
  All-map P [] f h a = tt
  All-map P (x ∷ xs) f h a = (h x a.0, All-map P xs f h a.1)

  pub All-both {κ κ' μ} :
      {P : A → Type κ} {Q : A → Type κ'} {R : A → Type μ} (xs : List A)
      → ((x : A) → P x → Q x → R x)
      → All P xs
      → All Q xs
      → All R xs
  All-both [] h a b = tt
  All-both (x ∷ xs) h a b = (h x a.0 b.0, All-both xs h a.1 b.1)

  -- Each entry stands in a relation to all later ones.
  abbrev pub IsApart : (A → A → Type 0) → List A → Type 0
  IsApart R [] = Unit
  IsApart R (x ∷ xs) = All (R x) xs × IsApart R xs

  module _ (le : A → A → Bool) where
    -- `x` goes before the first `y` that it may stand before.
    unfoldable pub place : A → List A → List A
    place x [] = x ∷ []
    place x (y ∷ ys) = let rest = place x ys in if le x y then x ∷ y ∷ ys else y ∷ rest

    unfoldable pub sort_by : List A → List A
    unfolding place
    sort_by [] = []
    sort_by (x ∷ xs) = place x (sort_by xs)

    pub sort_by-nil : sort_by [] ≡ []
    unfolding sort_by
    sort_by-nil = refl

    sum_of-place : (f : A → ℕ) (x : A) (ys : List A) → sum_of f (place x ys) ≡ f x + sum_of f ys
    unfolding place
    sum_of-place f x [] = refl
    sum_of-place f x (y ∷ ys) = ground (arith, sum_of-place f x ys)

    pub sum_of-sort_by : (f : A → ℕ) (xs : List A) → sum_of f (sort_by xs) ≡ sum_of f xs
    unfolding sort_by
    sum_of-sort_by f [] = refl
    sum_of-sort_by f (x ∷ xs) = omega (arith, sum_of-place f x (sort_by xs), sum_of-sort_by f xs)

    module _ {κ} (P : A → Type κ) where
      All-place : (x : A) (ys : List A) → P x → All P ys → All P (place x ys)
      unfolding place
      All-place x [] p a = (p, tt)
      All-place x (y ∷ ys) p a = elim (Bool-cases (le x y)) [
        | inl before ↦ rw (before, place) (p, (a.0, a.1))
        | inr after ↦ rw (after, place) (a.0, All-place x ys p a.1)
      ]

      pub All-sort_by : (xs : List A) → All P xs → All P (sort_by xs)
      unfolding sort_by
      All-sort_by [] a = tt
      All-sort_by (x ∷ xs) a = All-place x (sort_by xs) a.0 (All-sort_by xs a.1)

      pub All-of-place : (x : A) (ys : List A) → All P (place x ys) → P x × All P ys
      unfolding place
      All-of-place x [] a = (a.0, tt)
      All-of-place x (y ∷ ys) a = elim (Bool-cases (le x y)) [
        | inl before ↦
            let b : All P (x ∷ y ∷ ys) =
              subst (λ t. All P (if t then x ∷ y ∷ ys else y ∷ place x ys)) before a in
            (b.0, b.1)
        | inr after ↦
            let b : All P (y ∷ place x ys) =
              subst (λ t. All P (if t then x ∷ y ∷ ys else y ∷ place x ys)) after a in
            let (p, rest) = All-of-place x ys b.1 in (p, (b.0, rest))
      ]

      pub All-of-sort_by : (xs : List A) → All P (sort_by xs) → All P xs
      unfolding sort_by
      All-of-sort_by [] a = tt
      All-of-sort_by (x ∷ xs) a =
          let (p, rest) = All-of-place x (sort_by xs) a in (p, All-of-sort_by xs rest)

    module _ (R : A → A → Type 0) (symmetric : (x y : A) → R x y → R y x) where
      place-IsApart : (x : A) (ys : List A) → All (R x) ys → IsApart R ys → IsApart R (place x ys)
      unfolding place
      place-IsApart x [] a b = (tt, tt)
      place-IsApart x (y ∷ ys) a b = elim (Bool-cases (le x y)) [
        | inl before ↦ rw (before, place) (a, b)
        | inr after ↦
            rw (after, place)
              (All-place (R y) x ys (symmetric x y a.0) b.0, place-IsApart x ys a.1 b.1)
      ]

      pub sort_by-IsApart : (xs : List A) → IsApart R xs → IsApart R (sort_by xs)
      unfolding sort_by
      sort_by-IsApart [] a = tt
      sort_by-IsApart (x ∷ xs) a =
          place-IsApart x (sort_by xs) (All-sort_by (R x) xs a.0) (sort_by-IsApart xs a.1)

    abbrev pub IsSorted : List A → Type 0
    IsSorted xs = IsApart (λ x y. le x y ≡ true) xs

    place-IsSorted :
        ((x y : A) → le x y ≡ false → le y x ≡ true)
        → ((x y z : A) → le x y ≡ true → le y z ≡ true → le x z ≡ true)
        → (x : A) (ys : List A) → IsSorted ys
        → IsSorted (place x ys)
    unfolding place
    place-IsSorted total trans x [] s = (tt, tt)
    place-IsSorted total trans x (y ∷ ys) s = elim (Bool-cases (le x y)) [
      | inl before ↦
          rw (before, place) ((before, All-weaken ys (λ z h. trans x y z before h) s.0), s)
      | inr after ↦
          rw (after, place)
            (
              All-place (λ z. le y z ≡ true) x ys (total x y after) s.0,
              place-IsSorted total trans x ys s.1,
            )
    ]

    pub sort_by-IsSorted :
        ((x y : A) → le x y ≡ false → le y x ≡ true)
        → ((x y z : A) → le x y ≡ true → le y z ≡ true → le x z ≡ true)
        → (xs : List A) → IsSorted (sort_by xs)
    unfolding sort_by
    sort_by-IsSorted total trans [] = tt
    sort_by-IsSorted total trans (x ∷ xs) =
        place-IsSorted total trans x (sort_by xs) (sort_by-IsSorted total trans xs)

    place-head : (x : A) (ys : List A) → All (λ y. le x y ≡ true) ys → place x ys ≡ x ∷ ys
    unfolding place
    place-head x [] a = refl
    place-head x (y ∷ ys) a = rw a.0 refl

    -- A sorted list stays as it is.
    pub sort_by-IsSorted_self : (xs : List A) → IsSorted xs → sort_by xs ≡ xs
    unfolding sort_by
    sort_by-IsSorted_self [] s = refl
    sort_by-IsSorted_self (x ∷ xs) s = rw (sort_by-IsSorted_self xs s.1) (place-head x xs s.0)
