-- ===== src/Prelude/Order.antt =====
-- Membership by recursion, and lists that fall strictly by an order: such a list is known by its
-- members, and its first entries are found in any sublist that has them.
use dashscan.Prelude.Tests.{if◌then◌else◌, Bool-cases}
use dashscan.Prelude.Lists.{All, keep, take}
use dashscan.Prelude.Sort.{place, sort_by}
use Prim.Native.Nat.{ℕ, zero, suc}
use mathlib.Core.Path.{◌≡◌, refl, sym, ap, subst}
use mathlib.Core.Logic.{◌⊎◌, inl, inr}
use mathlib.Core.Bool.{Bool, true}
use mathlib.Core.List.{List, [], ◌∷◌, ◌++◌, map}

pub data In {ℓ} {A : Type ℓ} (x : A) : List A → Type ℓ where
  here : {y : A} {ys : List A} → x ≡ y → In x (y ∷ ys)
  there : {y : A} {ys : List A} → In x ys → In x (y ∷ ys)

module _ {ℓ} {A : Type ℓ} where
  pub All-In {κ} : {P : A → Type κ} (xs : List A) → ((x : A) → In x xs → P x) → All P xs
  All-In [] h = tt
  All-In (x ∷ xs) h = (h x (here refl), All-In xs (λ y m. h y (there m)))

  pub In-All {κ} : (P : A → Type κ) {x : A} (xs : List A) → All P xs → In x xs → P x
  In-All P [] a m = elim m [ ]
  In-All P (y ∷ ys) a (here e) = subst P (sym e) a.0
  In-All P (y ∷ ys) a (there m) = In-All P ys a.1 m

  pub In-append : {x : A} (xs ys : List A) → In x (xs ++ ys) → In x xs ⊎ In x ys
  In-append [] ys m = inr m
  In-append (z ∷ xs) ys (here e) = inl (here e)
  In-append (z ∷ xs) ys (there m) = elim (In-append xs ys m) [
    | inl l ↦ inl (there l)
    | inr r ↦ inr r
  ]

  pub In-append_left : {x : A} (xs ys : List A) → In x xs → In x (xs ++ ys)
  In-append_left [] ys m = elim m [ ]
  In-append_left (z ∷ xs) ys (here e) = here e
  In-append_left (z ∷ xs) ys (there m) = there (In-append_left xs ys m)

  pub In-append_right : {x : A} (xs ys : List A) → In x ys → In x (xs ++ ys)
  In-append_right [] ys m = m
  In-append_right (z ∷ xs) ys m = there (In-append_right xs ys m)

  pub In-take : {x : A} (n : ℕ) (xs : List A) → In x (take n xs) → In x xs
  In-take zero xs m = elim m [ ]
  In-take (suc n) [] m = elim m [ ]
  In-take (suc n) (y ∷ ys) (here e) = here e
  In-take (suc n) (y ∷ ys) (there m) = there (In-take n ys m)

  pub In-keep : {x : A} (p : A → Bool) (xs : List A) → In x (keep p xs) → In x xs × (p x ≡ true)
  In-keep p [] m = elim m [ ]
  In-keep {x} p (y ∷ ys) m = elim (Bool-cases (p y)) [
    | inl holds ↦
        let m' : In x (y ∷ keep p ys) =
          subst (λ t. In x (if t then y ∷ keep p ys else keep p ys)) holds m in
        elim m' [
          | here e ↦ (here e, subst (λ z. p z ≡ true) (sym e) holds)
          | there r ↦ (there (In-keep p ys r).0, (In-keep p ys r).1)
        ]
    | inr fails ↦
        let m' = subst (λ t. In x (if t then y ∷ keep p ys else keep p ys)) fails m in
        (there (In-keep p ys m').0, (In-keep p ys m').1)
  ]

  pub In-of-keep : {x : A} (p : A → Bool) (xs : List A) → In x xs → p x ≡ true → In x (keep p xs)
  In-of-keep p [] m h = elim m [ ]
  In-of-keep {x} p (y ∷ ys) (here e) h =
      let holds : p y ≡ true = subst (λ z. p z ≡ true) e h in rw holds (here e)
  In-of-keep {x} p (y ∷ ys) (there r) h = elim (Bool-cases (p y)) [
    | inl holds ↦ rw holds (there (In-of-keep p ys r h))
    | inr fails ↦ rw fails (In-of-keep p ys r h)
  ]

  pub In-map {κ} : {B : Type κ} (f : A → B) {x : A} (xs : List A) → In x xs → In (f x) (map f xs)
  In-map f [] m = elim m [ ]
  In-map f (y ∷ ys) (here e) = here (ap f e)
  In-map f (y ∷ ys) (there m) = there (In-map f ys m)

  pub In-of-map {κ} :
      {B : Type κ} (f : A → B) {b : B} (xs : List A)
      → In b (map f xs)
      → (x : A) × (b ≡ f x) × In x xs
  In-of-map f [] m = elim m [ ]
  In-of-map f (y ∷ ys) (here e) = (y, e, here refl)
  In-of-map f (y ∷ ys) (there m) = let (x, e, i) = In-of-map f ys m in (x, e, there i)

  module _ (le : A → A → Bool) where
    In-place : {x : A} (y : A) (ys : List A) → In x (place le y ys) → In x (y ∷ ys)
    unfolding place
    In-place y [] m = m
    In-place {x} y (z ∷ zs) m = elim (Bool-cases (le y z)) [
      | inl before ↦ subst (λ t. In x (if t then y ∷ z ∷ zs else z ∷ place le y zs)) before m
      | inr after ↦
          let m' : In x (z ∷ place le y zs) =
            subst (λ t. In x (if t then y ∷ z ∷ zs else z ∷ place le y zs)) after m in
          elim m' [
            | here e ↦ there (here e)
            | there r ↦ elim (In-place y zs r) [ here e ↦ here e | there s ↦ there (there s) ]
          ]
    ]

    In-of-place : {x : A} (y : A) (ys : List A) → In x (y ∷ ys) → In x (place le y ys)
    unfolding place
    In-of-place y [] m = m
    In-of-place {x} y (z ∷ zs) (here e) = elim (Bool-cases (le y z)) [
      | inl before ↦ rw before (here e)
      | inr after ↦ rw after (there (In-of-place y zs (here e)))
    ]
    In-of-place {x} y (z ∷ zs) (there (here e)) = elim (Bool-cases (le y z)) [
      | inl before ↦ rw before (there (here e))
      | inr after ↦ rw after (here e)
    ]
    In-of-place {x} y (z ∷ zs) (there (there r)) = elim (Bool-cases (le y z)) [
      | inl before ↦ rw before (there (there r))
      | inr after ↦ rw after (there (In-of-place y zs (there r)))
    ]

    -- Sorting keeps the members.
    pub In-sort_by : {x : A} (xs : List A) → In x (sort_by le xs) → In x xs
    unfolding sort_by
    In-sort_by [] m = m
    In-sort_by (y ∷ ys) m = elim (In-place y (sort_by le ys) m) [
      | here e ↦ here e
      | there r ↦ there (In-sort_by ys r)
    ]

    pub In-of-sort_by : {x : A} (xs : List A) → In x xs → In x (sort_by le xs)
    unfolding sort_by
    In-of-sort_by [] m = m
    In-of-sort_by (y ∷ ys) (here e) = In-of-place y (sort_by le ys) (here e)
    In-of-sort_by (y ∷ ys) (there r) = In-of-place y (sort_by le ys) (there (In-of-sort_by ys r))
