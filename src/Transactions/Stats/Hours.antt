-- ===== src/Transactions/Stats/Hours.antt =====
-- The rows of the rollup between two whole hours count what happened between them, so that with the
-- live slices each transaction of the window is counted once.
use dashscan.Prelude.{
  ℕ, ◌+◌, ◌*◌, ◌/◌, ◌%◌, ◌≡◌, ◌≢◌, refl, sym, ap, ◌∙◌, inl, inr, Bool, true, false, ◌&&◌, Option,
  none, some, List, [], ◌∷◌, keep, sum_of, sum_of-All, IsApart, ltb, leb, if◌then◌else◌, arith,
  Bool-cases,
}
use dashscan.Prelude.Order.{In, here, there, All-In, In-All, In-keep, In-of-keep}
use dashscan.Prelude.Falling.{keep-IsApart}
use dashscan.Transactions.{Tables, TxRecord}
use dashscan.Transactions.Stats.{
  ms_per_hour, Counters, HourRow, counted, is_special, is_normal, counters_of, in_hours, rollup_row,
}
use dashscan.Transactions.Stats.Exact.{time_at, is_in, happened, counters_eq}

abbrev pub hour_of : ℕ → ℕ
hour_of s = s / ms_per_hour * ms_per_hour

-- What the indexer keeps in `chain_stats_hourly`: rows of whole hours, one for an hour, each with the
-- counts of its hour, and a row for each hour in which a transaction was confirmed.
pub record IsRolledUp (tables : Tables) (hours : List HourRow) : Type 0 where
  pub whole : (r : HourRow) → In r hours → r.hour % ms_per_hour ≡ 0
  pub hours_differ : IsApart (λ r s. r.hour ≢ s.hour) hours
  pub counts :
      (r : HourRow)
      → In r hours
      → r.counters ≡ counters_of (happened tables r.hour (r.hour + ms_per_hour)) tables.transactions
  pub present :
      (t : TxRecord) (s : ℕ)
      → In t tables.transactions
      → time_at tables t.block_height ≡ some s
      → (r : HourRow) × In r hours × (r.hour ≡ hour_of s)

pub sum_of_zero :
    {A : Type 0} (f : A → ℕ) (xs : List A) → ((x : A) → In x xs → f x ≡ 0) → sum_of f xs ≡ 0
sum_of_zero f [] h = refl
sum_of_zero f (x ∷ xs) h = omega (arith, h x (here refl), sum_of_zero f xs (λ y m. h y (there m)))

pub sum_of-plus :
    {A : Type 0} (f g : A → ℕ) (xs : List A)
    → sum_of (λ x. f x + g x) xs ≡ sum_of f xs + sum_of g xs
sum_of-plus f g [] = omega arith
sum_of-plus f g (x ∷ xs) = omega (arith, sum_of-plus f g xs)

sum_of-swap :
    {A B : Type 0} (g : A → B → ℕ) (xs : List A) (ys : List B)
    → sum_of (λ x. sum_of (g x) ys) xs ≡ sum_of (λ y. sum_of (λ x. g x y) xs) ys
sum_of-swap g [] ys = sym (sum_of_zero (λ y. 0) ys (λ y m. refl))
sum_of-swap g (x ∷ xs) ys =
    ap (λ n. sum_of (g x) ys + n) (sum_of-swap g xs ys)
    ∙ sym (sum_of-plus (g x) (λ y. sum_of (λ z. g z y) xs) ys)

-- A sum of which one entry alone is not zero.
sum_of-single :
    (f : HourRow → ℕ) (rs : List HourRow) {r : HourRow}
    → IsApart (λ a b. a.hour ≢ b.hour) rs
    → In r rs
    → ((a : HourRow) → In a rs → a.hour ≢ r.hour → f a ≡ 0)
    → sum_of f rs ≡ f r
sum_of-single f [] d m h = elim m [ ]
sum_of-single f (a ∷ rs) {r} d (here e) h =
    let rest = sum_of_zero f rs (λ b i.
      h b (there i) (λ q. In-All (λ c. a.hour ≢ c.hour) rs d.0 i (sym (q ∙ ap (λ c. c.hour) e)))) in
    ap (λ n. f a + n) rest ∙ omega (arith, ap f e)
sum_of-single f (a ∷ rs) {r} d (there m) h =
    let zero_here = h a (here refl) (In-All (λ c. a.hour ≢ c.hour) rs d.0 m) in
    omega (arith, zero_here, sum_of-single f rs d.1 m (λ b i q. h b (there i) q))

module _ (tables : Tables) (hours : List HourRow) (rolled : IsRolledUp tables hours) where
  open rolled use {whole, hours_differ, counts, present}

  abbrev rows_in : ℕ → ℕ → List HourRow
  rows_in lo hi = keep (in_hours lo hi) hours

  -- Whether a row counts what is of a kind and happened at a time.
  abbrev hit : Bool → Option ℕ → HourRow → ℕ
  hit kind time r = if kind && is_in r.hour (r.hour + ms_per_hour) time then 1 else 0

  other_hour :
      (kind : Bool) (s : ℕ) (r a : HourRow)
      → r.hour ≡ hour_of s
      → a.hour % ms_per_hour ≡ 0
      → a.hour ≢ r.hour
      → hit kind (some s) a ≡ 0
  other_hour kind s r a e w d =
      let apart : is_in a.hour (a.hour + ms_per_hour) (some s) ≡ false = ground (arith, d) in
      rw apart (ground arith)

  -- Of the rows between two whole hours one counts what happened between them, and none the rest.
  sum_of-hits :
      (kind : Bool) (time : Option ℕ) (lo hi : ℕ)
      → lo % ms_per_hour ≡ 0
      → hi % ms_per_hour ≡ 0
      → ((s : ℕ) → time ≡ some s → (r : HourRow) × In r hours × (r.hour ≡ hour_of s))
      → sum_of (hit kind time) (rows_in lo hi) ≡ (if kind && is_in lo hi time then 1 else 0)
  sum_of-hits kind none lo hi p q there_is =
      sum_of_zero (hit kind none) (rows_in lo hi) (λ r m. ground arith) ∙ ground arith
  sum_of-hits kind (some s) lo hi p q there_is = elim (Bool-cases (leb lo s && ltb s hi)) [
    | inl within ↦
        let (r, i, e) = there_is s refl in
        let kept : In r (rows_in lo hi) =
          In-of-keep (in_hours lo hi) hours i (ground (arith, within)) in
        let mine : is_in r.hour (r.hour + ms_per_hour) (some s) ≡ true = ground arith in
        sum_of-single (hit kind (some s)) (rows_in lo hi) (keep-IsApart _ _ hours hours_differ) kept
          (λ a m d. other_hour kind s r a e (whole a (In-keep (in_hours lo hi) hours m).0) d)
        ∙ rw (mine, within) refl
    | inr without ↦
        sum_of_zero (hit kind (some s)) (rows_in lo hi) (λ r m.
          let (known, inside) = In-keep (in_hours lo hi) hours m in
          let w = whole r known in
          let outside : is_in r.hour (r.hour + ms_per_hour) (some s) ≡ false =
            ground (arith, inside, without) in
          rw outside (ground arith))
        ∙ rw without (ground arith)
  ]

  rollup-counted :
      (field : Counters → ℕ) (k : TxRecord → Bool) (lo hi : ℕ)
      → ((chosen : TxRecord → Bool)
          → field (counters_of chosen tables.transactions)
            ≡ counted (λ t. k t && chosen t) tables.transactions)
      → lo % ms_per_hour ≡ 0
      → hi % ms_per_hour ≡ 0
      → sum_of (λ r. field r.counters) (rows_in lo hi)
        ≡ counted (λ t. k t && happened tables lo hi t) tables.transactions
  rollup-counted field k lo hi reads p q =
      sum_of-All _ _ (rows_in lo hi) (
        All-In _ (λ r m.
          ap field (counts r (In-keep (in_hours lo hi) hours m).0)
          ∙ reads (happened tables r.hour (r.hour + ms_per_hour))))
      ∙ sum_of-swap (λ r t. hit (k t) (time_at tables t.block_height) r) (rows_in lo hi)
          tables.transactions
      ∙ sum_of-All _ _ tables.transactions (
          All-In _ (λ t m.
            sum_of-hits (k t) (time_at tables t.block_height) lo hi p q (λ s e. present t s m e)))

  -- The row of the rollup counts what happened between the hours.
  pub rollup_row-counters :
      (lo hi : ℕ)
      → lo % ms_per_hour ≡ 0
      → hi % ms_per_hour ≡ 0
      → rollup_row hours lo hi ≡ counters_of (happened tables lo hi) tables.transactions
  unfolding rollup_row
  rollup_row-counters lo hi p q =
      counters_eq (rollup-counted (λ c. c.special) is_special lo hi (λ _. refl) p q)
        (rollup-counted (λ c. c.coinjoin) (λ t. t.coinjoin) lo hi (λ _. refl) p q)
        (rollup-counted (λ c. c.multisig) (λ t. t.multisig) lo hi (λ _. refl) p q)
        (rollup-counted (λ c. c.normal) is_normal lo hi (λ _. refl) p q)
