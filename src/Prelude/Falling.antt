-- ===== src/Prelude/Falling.antt =====
-- Lists that fall strictly by an order: such a list is known by its members, its first entries are the
-- first entries of any part that has them, and what stands after a member is what lies below it.
use dashscan.Prelude.Tests.{Bool-cases, Option-cases, or_else}
use dashscan.Prelude.Lists.{All, keep, take, drop}
use dashscan.Prelude.Sort.{IsApart, All-map, All-both}
use dashscan.Prelude.Order.{In, here, there, All-In, In-All, In-take, In-keep}
use Prim.Native.Nat.{ℕ, zero, suc}
use mathlib.Core.Path.{◌≡◌, refl, sym, ap, ap₂, subst, ◌∙◌}
use mathlib.Core.Option.{Option, none, some}
use mathlib.Core.Logic.{◌≢◌, inl, inr}
use mathlib.Core.Bool.{Bool, true, false}
use mathlib.Core.List.{List, [], ◌∷◌, map}
use native.Mathlib.Omega.{arith}

-- Every member of the one is a member of the other.
abbrev pub IsPart {ℓ} : {A : Type ℓ} → List A → List A → Type ℓ
IsPart {A} xs ys = (x : A) → In x xs → In x ys

module _ {ℓ} {A : Type ℓ} where
  In-take-suc : {x : A} (n : ℕ) (xs : List A) → In x (take n xs) → In x (take (suc n) xs)
  In-take-suc zero xs m = elim m [ ]
  In-take-suc (suc n) [] m = elim m [ ]
  In-take-suc (suc n) (y ∷ ys) (here e) = here e
  In-take-suc (suc n) (y ∷ ys) (there m) = there (In-take-suc n ys m)

  All-keep {κ} : (P : A → Type κ) (p : A → Bool) (xs : List A) → All P xs → All P (keep p xs)
  All-keep P p xs a = All-In (keep p xs) (λ x m. In-All P xs a (In-keep p xs m).0)

  pub keep-IsApart :
      (R : A → A → Type 0) (p : A → Bool) (xs : List A) → IsApart R xs → IsApart R (keep p xs)
  keep-IsApart R p [] f = tt
  keep-IsApart R p (x ∷ xs) f = elim (Bool-cases (p x)) [
    | inl holds ↦ rw holds (All-keep (R x) p xs f.0, keep-IsApart R p xs f.1)
    | inr fails ↦ rw fails (keep-IsApart R p xs f.1)
  ]

  pub take-IsApart :
      (R : A → A → Type 0) (n : ℕ) (xs : List A) → IsApart R xs → IsApart R (take n xs)
  take-IsApart R zero xs f = tt
  take-IsApart R (suc n) [] f = tt
  take-IsApart R (suc n) (x ∷ xs) f =
      (All-In (take n xs) (λ y m. In-All (R x) xs f.0 (In-take n xs m)), take-IsApart R n xs f.1)

  pub IsApart-both {κ} :
      (C : A → Type κ) (R S T : A → A → Type 0) (xs : List A)
      → ((x y : A) → C x → C y → R x y → S x y → T x y)
      → All C xs
      → IsApart R xs
      → IsApart S xs
      → IsApart T xs
  IsApart-both C R S T [] h c r s = tt
  IsApart-both C R S T (x ∷ xs) h c r s = (
    All-In xs λ y m. h x y c.0 (In-All C xs c.1 m) (In-All (R x) xs r.0 m) (In-All (S x) xs s.0 m),
    IsApart-both C R S T xs h c.1 r.1 s.1,
  )

  pub IsApart-map {κ μ} :
      {B : Type μ} (C : A → Type κ) (R : A → A → Type 0) (T : B → B → Type 0) (f : A → B)
      (xs : List A)
      → ((x y : A) → C x → C y → R x y → T (f x) (f y))
      → All C xs
      → IsApart R xs
      → IsApart T (map f xs)
  IsApart-map C R T f [] h c r = tt
  IsApart-map C R T f (x ∷ xs) h c r = (
    All-map (T (f x)) {Q = λ y. C y × R x y} xs f (λ y p. h x y c.0 p.0 p.1)
        (All-both xs (λ y p q. (p, q)) c.1 r.0),
    IsApart-map C R T f xs h c.1 r.1,
  )

  pub keep-All : (p : A → Bool) (xs : List A) → All (λ x. p x ≡ true) xs → keep p xs ≡ xs
  keep-All p [] a = refl
  keep-All p (x ∷ xs) a = rw a.0 (ap (λ ys. x ∷ ys) (keep-All p xs a.1))

  pub keep_none : (p : A → Bool) (xs : List A) → ((x : A) → p x ≡ false) → keep p xs ≡ []
  keep_none p [] h = refl
  keep_none p (x ∷ xs) h = rw (h x) (keep_none p xs h)

  -- A finer test keeps the same of what a coarser one kept.
  pub keep-keep :
      (p q : A → Bool) (xs : List A)
      → ((x : A) → p x ≡ true → q x ≡ true)
      → keep p (keep q xs) ≡ keep p xs
  keep-keep p q [] h = refl
  keep-keep p q (x ∷ xs) h = elim (Bool-cases (p x)) [
    | inl fine ↦ rw (h x fine, fine) (ap (λ ys. x ∷ ys) (keep-keep p q xs h))
    | inr no_more ↦ ground (arith, keep-keep p q xs h)
  ]

  pub keep-map {κ} :
      {B : Type κ} (p : B → Bool) (f : A → B) (xs : List A)
      → keep p (map f xs) ≡ map f (keep (λ x. p (f x)) xs)
  keep-map p f [] = refl
  keep-map p f (x ∷ xs) = elim (Bool-cases (p (f x))) [
    | inl holds ↦ rw holds (ap (λ ys. f x ∷ ys) (keep-map p f xs))
    | inr fails ↦ rw fails (keep-map p f xs)
  ]

  pub take-map {κ} :
      {B : Type κ} (n : ℕ) (f : A → B) (xs : List A) → take n (map f xs) ≡ map f (take n xs)
  take-map zero f xs = refl
  take-map (suc n) f [] = refl
  take-map (suc n) f (x ∷ xs) = ap (λ ys. f x ∷ ys) (take-map n f xs)

  -- Two members that a relation on entries keeps apart unless they are one.
  pub apart-eq :
      {B : Type 0} (f : A → B) {x y : A} (xs : List A)
      → IsApart (λ a b. f a ≢ f b) xs
      → In x xs
      → In y xs
      → f x ≡ f y
      → x ≡ y
  apart-eq f [] a m m' h = elim m [ ]
  apart-eq f (z ∷ xs) a (here e) (here e') h = e ∙ sym e'
  apart-eq f (z ∷ xs) a (here e) (there m) h =
      absurd (In-All (λ b. f z ≢ f b) xs a.0 m (sym (ap f e) ∙ h))
  apart-eq f (z ∷ xs) a (there m) (here e) h =
      absurd (In-All (λ b. f z ≢ f b) xs a.0 m (sym (ap f e) ∙ sym h))
  apart-eq f (z ∷ xs) a (there m) (there m') h = apart-eq f xs a.1 m m' h

  -- The last entry, `xs[xs.length - 1]`.
  abbrev pub last : List A → Option A
  last [] = none
  last (x ∷ xs) = or_else (last xs) (some x)

  pub In-last : {x : A} (xs : List A) → last xs ≡ some x → In x xs
  In-last [] h = absurd (cc h)
  In-last {x} (y ∷ ys) h = elim (Option-cases (last ys)) [
    | inl e ↦
        let h' : some y ≡ some x = subst (λ o. or_else o (some y) ≡ some x) e h in here (cc h')
    | inr (z, e) ↦
        let h' : some z ≡ some x = subst (λ o. or_else o (some y) ≡ some x) e h in
        there (In-last ys (e ∙ h'))
  ]

module _ {A : Type 0} (gt : A → A → Bool) (irrefl : (x : A) → gt x x ≡ true → ⊥)
    (trans : (x y z : A) → gt x y ≡ true → gt y z ≡ true → gt x z ≡ true) where
  abbrev pub Falls : List A → Type 0
  Falls xs = IsApart (λ x y. gt x y ≡ true) xs

  below-head : {x y : A} {ys : List A} → Falls (y ∷ ys) → In x ys → gt y x ≡ true
  below-head {x} {y} {ys} f m = In-All (λ z. gt y z ≡ true) ys f.0 m

  no_cycle : {x y : A} → gt x y ≡ true → gt y x ≡ true → ⊥
  no_cycle {x} {y} h k = irrefl x (trans x y x h k)

  -- The heads agree.
  heads :
      {x y : A} {xs ys : List A}
      → Falls (x ∷ xs)
      → Falls (y ∷ ys)
      → In x (y ∷ ys)
      → In y (x ∷ xs)
      → x ≡ y
  heads f g (here e) m = e
  heads f g (there r) (here e) = sym e
  heads f g (there r) (there s) = absurd (no_cycle (below-head g r) (below-head f s))

  not-head : {x y : A} {ys : List A} → gt y x ≡ true → In x (y ∷ ys) → In x ys
  not-head {x} {y} h (here e) = absurd (irrefl y (subst (λ z. gt y z ≡ true) e h))
  not-head h (there r) = r

  tails :
      {x y : A} {xs ys : List A} → Falls (x ∷ xs) → x ≡ y → IsPart (x ∷ xs) (y ∷ ys) → IsPart xs ys
  tails f e part z m = not-head (subst (λ w. gt w z ≡ true) e (below-head f m)) (part z (there m))

  -- A falling list that is part of another, and has its first n entries, starts with them.
  pub take-IsPart :
      (n : ℕ) (xs ys : List A)
      → Falls xs
      → Falls ys
      → IsPart xs ys
      → IsPart (take n ys) xs
      → take n xs ≡ take n ys
  take-IsPart zero xs ys f g part has = refl
  take-IsPart (suc n) [] [] f g part has = refl
  take-IsPart (suc n) [] (y ∷ ys) f g part has = elim (has y (here refl)) [ ]
  take-IsPart (suc n) (x ∷ xs) [] f g part has = elim (part x (here refl)) [ ]
  take-IsPart (suc n) (x ∷ xs) (y ∷ ys) f g part has =
      let e = heads f g (part x (here refl)) (has y (here refl)) in
      ap₂ (λ z zs. z ∷ zs) e
        (take-IsPart n xs ys f.1 g.1 (tails f e part)
          λ z m. not-head (rw e (below-head g (In-take n ys m))) (has z (there m)))

  -- It is known by its members.
  pub Falls-unique : (xs ys : List A) → Falls xs → Falls ys → IsPart xs ys → IsPart ys xs → xs ≡ ys
  Falls-unique [] [] f g p q = refl
  Falls-unique [] (y ∷ ys) f g p q = elim (q y (here refl)) [ ]
  Falls-unique (x ∷ xs) [] f g p q = elim (p x (here refl)) [ ]
  Falls-unique (x ∷ xs) (y ∷ ys) f g p q =
      let e = heads f g (p x (here refl)) (q y (here refl)) in
      ap₂ (λ z zs. z ∷ zs) e (Falls-unique xs ys f.1 g.1 (tails f e p) (tails g (sym e) q))

  -- Of a part, a member that is among the first n of the whole is among the first n.
  pub In-take-IsPart :
      {x : A} (n : ℕ) (xs ys : List A)
      → Falls xs
      → Falls ys
      → IsPart xs ys
      → In x xs
      → In x (take n ys)
      → In x (take n xs)
  In-take-IsPart zero xs ys f g part m t = elim t [ ]
  In-take-IsPart (suc n) [] ys f g part m t = elim m [ ]
  In-take-IsPart (suc n) (z ∷ xs) [] f g part m t = elim t [ ]
  In-take-IsPart (suc n) (z ∷ xs) (y ∷ ys) f g part (here e) t = here e
  In-take-IsPart (suc n) (z ∷ xs) (y ∷ ys) f g part (there m) (here e) = elim (part z (here refl)) [
    | here e' ↦ absurd (irrefl z (subst (λ w. gt z w ≡ true) (e ∙ sym e') (below-head f m)))
    | there r ↦
        absurd (no_cycle (subst (λ w. gt w z ≡ true) (sym e) (below-head g r)) (below-head f m))
  ]
  In-take-IsPart (suc n) (z ∷ xs) (y ∷ ys) f g part (there m) (there t) =
      elim (part z (here refl)) [
        | here e ↦ there (In-take-IsPart n xs ys f.1 g.1 (tails f e part) m t)
        | there r ↦
            let inside : IsPart (z ∷ xs) ys = λ w i. below_all w i r in
            In-take-suc n (z ∷ xs) (In-take-IsPart n (z ∷ xs) ys f g.1 inside (there m) t)
      ]
    where
      below_all : (w : A) → In w (z ∷ xs) → In z ys → In w ys
      below_all w (here e) r = rw e r
      below_all w (there i) r =
          not-head (trans _ _ _ (below-head g r) (below-head f i)) (part w (there i))

  not-above : {x y : A} → gt y x ≡ true → gt x y ≡ false
  not-above {x} {y} h = elim (Bool-cases (gt x y)) [ inl up ↦ absurd (no_cycle h up) | inr e ↦ e ]

  self : (x : A) → gt x x ≡ false
  self x = elim (Bool-cases (gt x x)) [ inl up ↦ absurd (irrefl x up) | inr e ↦ e ]

  -- What lies below the last of the first n is what comes after them.
  pub keep-drop :
      {p : A} (n : ℕ) (xs : List A)
      → Falls xs
      → last (take n xs) ≡ some p
      → keep (gt p) xs ≡ drop n xs
  keep-drop zero xs f h = absurd (cc h)
  keep-drop (suc n) [] f h = absurd (cc h)
  keep-drop {p} (suc n) (x ∷ xs) f h = elim (Option-cases (last (take n xs))) [
    | inl e ↦
        let h' : x ≡ p = cc (subst (λ o. or_else o (some x) ≡ some p) e h) in
        subst (λ q. keep (gt q) (x ∷ xs) ≡ drop n xs) h'
          (rw (self x) (keep-All (gt x) xs f.0 ∙ sym (nothing_taken n xs e)))
    | inr (q, e) ↦
        let h' : some q ≡ some p = subst (λ o. or_else o (some x) ≡ some p) e h in
        let below = below-head f (In-take n xs (In-last (take n xs) (e ∙ h'))) in
        rw (not-above below) (keep-drop n xs f.1 (e ∙ h'))
  ]
    where
      nothing_taken : (n : ℕ) (xs : List A) → last (take n xs) ≡ none → drop n xs ≡ xs
      nothing_taken zero xs e = refl
      nothing_taken (suc n) [] e = refl
      nothing_taken (suc n) (y ∷ ys) e = absurd (ground (arith, Option-cases (last (take n ys))))
