-- ===== src/Transactions/Wallet/Places.antt =====
-- Places in a history fall strictly, and grouping the pages of the addresses loses none of the newest.
use dashscan.Prelude.{
  ℕ, ◌≡◌, ◌≢◌, refl, sym, ap, ◌∙◌, inl, inr, Bool, true, false, List, [], ◌∷◌, take, All, IsApart,
  sort_by, sort_by-IsApart, sort_by-IsSorted, Bool-cases, ◌==◌, max, arith, subst,
}
use dashscan.Prelude.Order.{In, here, there, All-In, In-sort_by, In-of-sort_by}
use dashscan.Prelude.Falling.{IsPart, take-IsPart, IsApart-both, apart-eq}
use dashscan.Transactions.Wallet.{Place, place_order, is_after, grouped_with, grouped}

pub is_after_irrefl : (x : Place) → is_after x x ≡ true → ⊥
is_after_irrefl x h = ground arith

pub is_after_trans :
    (x y z : Place) → is_after x y ≡ true → is_after y z ≡ true → is_after x z ≡ true
is_after_trans x y z h k = ground arith

pub is_after-of-order :
    (x y : Place) → place_order x y ≡ true → x.tx_id ≢ y.tx_id → is_after x y ≡ true
is_after-of-order x y h k = ground (arith, k)

order_total : (x y : Place) → place_order x y ≡ false → place_order y x ≡ true
order_total x y h = ground arith

order_trans :
    (x y z : Place) → place_order x y ≡ true → place_order y z ≡ true → place_order x z ≡ true
order_trans x y z h k = ground arith

abbrev pub AreDistinct : List Place → Type 0
AreDistinct = IsApart (λ x y. x.tx_id ≢ y.tx_id)

abbrev pub Fall : List Place → Type 0
Fall = IsApart (λ x y. is_after x y ≡ true)

-- Sorted places of different transactions fall strictly.
pub sort_by-Fall : (xs : List Place) → AreDistinct xs → Fall (sort_by place_order xs)
sort_by-Fall xs d =
    IsApart-both (λ _. Unit {0}) (λ x y. place_order x y ≡ true) (λ x y. x.tx_id ≢ y.tx_id) _ _
      (λ x y _ _ h k. is_after-of-order x y h k) (All-In _ (λ _ _. tt))
      (sort_by-IsSorted place_order order_total order_trans xs)
      (sort_by-IsApart place_order (λ x y. x.tx_id ≢ y.tx_id) (λ x y h e. h (sym e)) xs d)

-- The two outcomes of a test in `grouped_with`.
abbrev outcome : Place → Place → List Place → Bool → List Place
outcome p q qs true = record q { block_height = max p.block_height q.block_height } ∷ qs
outcome p q qs false = q ∷ grouped_with p qs

grouped_with-outcome :
    (p q : Place) (qs : List Place) → grouped_with p (q ∷ qs) ≡ outcome p q qs (p.tx_id == q.tx_id)
unfolding grouped_with
grouped_with-outcome p q qs = elim (Bool-cases (p.tx_id == q.tx_id)) [
  | inl same ↦ rw same refl
  | inr other ↦ rw other refl
]

All-grouped_with :
    (Q : ℕ → Type 0) (p : Place) (qs : List Place)
    → Q p.tx_id
    → All (λ q. Q q.tx_id) qs
    → All (λ q. Q q.tx_id) (grouped_with p qs)
unfolding grouped_with
All-grouped_with Q p [] h a = (h, tt)
All-grouped_with Q p (q ∷ qs) h a = elim (Bool-cases (p.tx_id == q.tx_id)) [
  | inl same ↦ rw same (a.0, a.1)
  | inr other ↦ rw other (a.0, All-grouped_with Q p qs h a.1)
]

grouped_with-AreDistinct :
    (p : Place) (qs : List Place) → AreDistinct qs → AreDistinct (grouped_with p qs)
unfolding grouped_with
grouped_with-AreDistinct p [] d = (tt, tt)
grouped_with-AreDistinct p (q ∷ qs) d = elim (Bool-cases (p.tx_id == q.tx_id)) [
  | inl same ↦ rw same (d.0, d.1)
  | inr other ↦ rw other (
    All-grouped_with (λ i. q.tx_id ≢ i) p qs (λ e. ground arith) d.0,
    grouped_with-AreDistinct p qs d.1,
  )
]

grouped-AreDistinct : (ps : List Place) → AreDistinct (grouped ps)
unfolding grouped
grouped-AreDistinct [] = tt
grouped-AreDistinct (p ∷ ps) = grouped_with-AreDistinct p (grouped ps) (grouped-AreDistinct ps)

merged : {x p q : Place} {qs : List Place} → p ≡ q → In x (p ∷ q ∷ qs) → In x (q ∷ qs)
merged e (here h) = here (h ∙ e)
merged e (there r) = r

past_head :
    {x p q : Place} {qs rs : List Place}
    → (In x (p ∷ qs) → In x rs)
    → In x (p ∷ q ∷ qs)
    → In x (q ∷ rs)
past_head f (here h) = there (f (here h))
past_head f (there (here h)) = here h
past_head f (there (there r)) = there (f (there r))

widened : {x p : Place} {qs rs : List Place} → (In x qs → In x rs) → In x (p ∷ qs) → In x (p ∷ rs)
widened f (here h) = here h
widened f (there r) = there (f r)

-- Where all places come from one history, a transaction has one height, and grouping keeps members.
module _ (history : List Place) (distinct : AreDistinct history) where
  same_place : {p q : Place} → In p history → In q history → (p.tx_id == q.tx_id) ≡ true → p ≡ q
  same_place {p} {q} i j h = apart-eq (λ r. r.tx_id) history distinct i j (ground arith)

  with_max :
      {p q : Place} → p ≡ q → record q { block_height = max p.block_height q.block_height } ≡ q
  with_max {p} {q} e =
      let h : max p.block_height q.block_height ≡ q.block_height =
        omega (arith, ap (λ r. r.block_height) e) in
      ap (λ k. record q { block_height = k }) h

  In-grouped_with :
      {x : Place} (p : Place) (qs : List Place)
      → In p history
      → IsPart qs history
      → In x (grouped_with p qs)
      → In x (p ∷ qs)
  unfolding grouped_with
  In-grouped_with p [] i part m = m
  In-grouped_with {x} p (q ∷ qs) i part m = elim (Bool-cases (p.tx_id == q.tx_id)) [
    | inl same ↦
        let m' = subst (In x) (grouped_with-outcome p q qs ∙ ap (outcome p q qs) same) m in
        there (subst (λ r. In x (r ∷ qs)) (with_max (same_place i (part q (here refl)) same)) m')
    | inr other ↦
        let m' : In x (q ∷ grouped_with p qs) =
          subst (In x) (grouped_with-outcome p q qs ∙ ap (outcome p q qs) other) m in
        elim m' [
          | here e ↦ there (here e)
          | there r ↦ elim (In-grouped_with p qs i (λ y s. part y (there s)) r) [
            | here e ↦ here e
            | there s ↦ there (there s)
          ]
        ]
  ]

  In-of-grouped_with :
      {x : Place} (p : Place) (qs : List Place)
      → In p history
      → IsPart qs history
      → In x (p ∷ qs)
      → In x (grouped_with p qs)
  unfolding grouped_with
  In-of-grouped_with p [] i part m = m
  In-of-grouped_with {x} p (q ∷ qs) i part m = elim (Bool-cases (p.tx_id == q.tx_id)) [
    | inl same ↦
        let e = same_place i (part q (here refl)) same in
        rw same (subst (λ r. In x (r ∷ qs)) (sym (with_max e)) (merged e m))
    | inr other ↦
        rw other (past_head (λ h. In-of-grouped_with p qs i (λ y s. part y (there s)) h) m)
  ]

  In-grouped : (ps : List Place) → IsPart ps history → IsPart (grouped ps) ps
  unfolding grouped
  In-grouped [] part x m = m
  In-grouped (p ∷ ps) part x m =
      let rest =
        λ (y : Place) (s : In y (grouped ps)). In-grouped ps (λ z t. part z (there t)) y s in
      elim (In-grouped_with p (grouped ps) (part p (here refl)) (λ y s. part y (there (rest y s)))
        m) [ here e ↦ here e | there r ↦ there (rest x r) ]

  In-of-grouped : (ps : List Place) → IsPart ps history → IsPart ps (grouped ps)
  unfolding grouped
  In-of-grouped [] part x m = elim m [ ]
  In-of-grouped (p ∷ ps) part x m =
      let older = λ (z : Place) (t : In z ps). part z (there t) in
      In-of-grouped_with p (grouped ps) (part p (here refl))
        (λ y s. older y (In-grouped ps older y s)) (widened (In-of-grouped ps older x) m)

  -- If the places that are grouped come from the history and have its n newest, then the n newest
  -- groups are the n newest places of the history.
  pub take-grouped :
      (n : ℕ) (ps : List Place)
      → Fall history
      → IsPart ps history
      → IsPart (take n history) ps
      → take n (sort_by place_order (grouped ps)) ≡ take n history
  take-grouped n ps f part has =
      take-IsPart is_after is_after_irrefl is_after_trans n _ history
        (sort_by-Fall (grouped ps) (grouped-AreDistinct ps)) f
        (λ x m. part x (In-grouped ps part x (In-sort_by place_order (grouped ps) m)))
        (λ x m. In-of-sort_by place_order (grouped ps) (In-of-grouped ps part x (has x m)))
