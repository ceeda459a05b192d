-- ===== src/Transactions/Stats/Exact.antt =====
-- A live slice counts the transactions of its time, where blocks later in the chain are not earlier.
use mathlib.Core.Option
use dashscan.Prelude.{
  ℕ, ◌+◌, ◌≤◌, ◌≡◌, ◌≢◌, refl, sym, ap, ◌∙◌, inl, inr, ◌⊎◌, Bool, true, false, ◌&&◌, Option, none,
  some, List, [], ◌∷◌, sum_of-All, All, IsApart, ltb, leb, if◌then◌else◌, ◌==◌, arith, Bool-cases,
  Option-cases, dec_lt, All-weaken,
}
use dashscan.Prelude.Order.{In, here, there, All-In, In-All, In-keep, In-of-keep}
use dashscan.Prelude.Falling.{apart-eq}
use dashscan.Prelude.Windows.{Window}
use dashscan.Transactions.Found.{find-In}
use dashscan.Transactions.{Tables, TxRecord, BlockRecord, block_at, max_height}
use dashscan.Transactions.Stats.{
  Counters, counted, counters_of, is_special, is_normal, min_height, spans, blocks_in, in_slice,
}

-- What the indexer and the chain keep: heights are unique, time does not run back along the chain, and a
-- confirmed transaction has its block.
pub record IsChain (tables : Tables) : Type 0 where
  pub heights_differ : IsApart (λ a b. a.height ≢ b.height) tables.blocks
  pub in_order :
      (a b : BlockRecord)
      → In a tables.blocks
      → In b tables.blocks
      → a.height ≤ b.height
      → a.timestamp ≤ b.timestamp
  pub placed :
      (t : TxRecord)
      → In t tables.transactions
      → (t.block_height ≡ none)
        ⊎ ((b : BlockRecord) × In b tables.blocks × (t.block_height ≡ some b.height))

-- When a transaction was confirmed.
abbrev pub time_at : Tables → Option ℕ → Option ℕ
time_at tables height = Option.map (λ b. b.timestamp) (block_at tables height)

-- Whether that was from `a` on and before `b`.
abbrev pub is_in : ℕ → ℕ → Option ℕ → Bool
is_in a b none = false
is_in a b (some s) = leb a s && ltb s b

abbrev pub happened : Tables → ℕ → ℕ → TxRecord → Bool
happened tables a b t = is_in a b (time_at tables t.block_height)

pub counted-eq :
    {A : Type 0} (p q : A → Bool) (xs : List A)
    → ((x : A) → In x xs → p x ≡ q x)
    → counted p xs ≡ counted q xs
counted-eq p q xs h = sum_of-All _ _ xs (All-In xs (λ x m. ap (λ b. if b then 1 else 0) (h x m)))

pub counters_eq :
    {a b : Counters}
    → a.special ≡ b.special
    → a.coinjoin ≡ b.coinjoin
    → a.multisig ≡ b.multisig
    → a.normal ≡ b.normal
    → a ≡ b
counters_eq e f g h = λ i. record { special = e i; coinjoin = f i; multisig = g i; normal = h i }

-- The lowest and the highest block of some.
lowest :
    (c : BlockRecord) (bs : List BlockRecord)
    → (lo : BlockRecord) × In lo (c ∷ bs)
      × (min_height (c ∷ bs) ≡ some lo.height)
      × All (λ b. lo.height ≤ b.height) (c ∷ bs)
unfolding min_height
lowest c [] = (c, here refl, refl, (omega arith, tt))
lowest c (d ∷ bs) =
    let (lo, i, e, a) = lowest d bs in
    elim (dec_lt c.height lo.height) [
      | yes below ↦ (
        c,
        here refl,
        rw (e, min_height) (ap some (omega arith)),
        (omega arith, All-weaken (d ∷ bs) (λ b h. omega (arith, h, below)) a),
      )
      | no above ↦ (lo, there i, rw (e, min_height) (ap some (omega arith)), (omega arith, a))
    ]

highest :
    (c : BlockRecord) (bs : List BlockRecord)
    → (hi : BlockRecord) × In hi (c ∷ bs)
      × (max_height (c ∷ bs) ≡ some hi.height)
      × All (λ b. b.height ≤ hi.height) (c ∷ bs)
unfolding max_height
highest c [] = (c, here refl, refl, (omega arith, tt))
highest c (d ∷ bs) =
    let (hi, i, e, a) = highest d bs in
    elim (dec_lt hi.height c.height) [
      | yes above ↦ (
        c,
        here refl,
        rw (e, max_height) (ap some (omega arith)),
        (omega arith, All-weaken (d ∷ bs) (λ b h. omega (arith, h, above)) a),
      )
      | no below ↦ (hi, there i, rw (e, max_height) (ap some (omega arith)), (omega arith, a))
    ]

spans-none : (bs : List BlockRecord) → spans bs none ≡ false
unfolding spans
spans-none bs = elim (Option-cases (min_height bs)) [
  | inl none_low ↦ rw (none_low, spans)
  | inr (lo, p) ↦ elim (Option-cases (max_height bs)) [
    | inl none_high ↦ rw (p, spans) (rw (none_high, spans))
    | inr (hi, q) ↦ rw (p, spans) (rw (q, spans))
  ]
]

unfold_spans :
    (bs : List BlockRecord) (h : ℕ) {lo hi : ℕ}
    → min_height bs ≡ some lo
    → max_height bs ≡ some hi
    → spans bs (some h) ≡ (leb lo h && leb h hi)
unfolding spans
unfold_spans bs h e e' = rw (e, spans) (rw (e', spans))

module _ (tables : Tables) (chain : IsChain tables) where
  open chain use {heights_differ, in_order, placed}

  block_at-In : (b : BlockRecord) → In b tables.blocks → block_at tables (some b.height) ≡ some b
  unfolding block_at
  block_at-In b i =
      find-In (λ c. c.height == b.height) tables.blocks i (ground arith)
        (λ c j h. apart-eq (λ d. d.height) tables.blocks heights_differ j i (ground (arith, h)))

  module _ (w : Window) (b : BlockRecord) (known : In b tables.blocks) where
    abbrev is_within : BlockRecord → Bool
    is_within c = leb w.from c.timestamp && leb c.timestamp w.to

    spans-some :
        (bs : List BlockRecord)
        → ((c : BlockRecord) → In c bs → In c tables.blocks × (is_within c ≡ true))
        → (is_within b ≡ true → In b bs)
        → spans bs (some b.height) ≡ is_within b
    unfolding spans min_height max_height
    spans-some [] inside has = elim (Bool-cases (is_within b)) [
      | inl h ↦ elim (has h) [ ]
      | inr h ↦ rw h refl
    ]
    spans-some (c ∷ bs) inside has =
        let (lo, i, e, above) = lowest c bs in
        let (hi, j, e', below) = highest c bs in
        let (lo-known, lo-within) = inside lo i in
        let (hi-known, hi-within) = inside hi j in
        let low = in_order lo b lo-known known in
        let high = in_order b hi known hi-known in
        let test : spans (c ∷ bs) (some b.height)
            ≡ (leb lo.height b.height && leb b.height hi.height) =
          unfold_spans (c ∷ bs) b.height e e' in
        test ∙ elim (Bool-cases (is_within b)) [
          | inl h ↦
              let over = In-All (λ d. lo.height ≤ d.height) (c ∷ bs) above (has h) in
              let under = In-All (λ d. d.height ≤ hi.height) (c ∷ bs) below (has h) in
              ground (arith, over, under, h)
          | inr h ↦ ground (arith, low, high, lo-within, hi-within, h)
        ]

  -- Between the lowest and the highest block of a stretch of time stand the blocks of that time.
  pub spans-within :
      (w : Window) (b : BlockRecord)
      → In b tables.blocks
      → spans (blocks_in tables w) (some b.height)
        ≡ (leb w.from b.timestamp && leb b.timestamp w.to)
  spans-within w b i =
      spans-some w b i (blocks_in tables w) (λ c j. In-keep _ tables.blocks j)
        (λ h. In-of-keep _ tables.blocks i h)

  in_slice-happened :
      (w : Window) (t : TxRecord)
      → In t tables.transactions
      → in_slice tables w t ≡ happened tables w.from (w.to + 1) t
  unfolding in_slice block_at
  in_slice-happened w t m = elim (placed t m) [
    | inl e ↦
        ap (spans (blocks_in tables w)) e
        ∙ spans-none (blocks_in tables w)
        ∙ sym (ap (λ o. is_in w.from (w.to + 1) (time_at tables o)) e)
    | inr (b, i, e) ↦
        ap (spans (blocks_in tables w)) e
        ∙ spans-within w b i
        ∙ sym (
            ap (λ o. is_in w.from (w.to + 1) (time_at tables o)) e
            ∙ ap (λ o. is_in w.from (w.to + 1) (Option.map (λ c. c.timestamp) o)) (block_at-In b i)
            ∙ ground arith)
  ]

  -- A slice adds what happened in it, its last moment included.
  pub counters_of-slice :
      (w : Window)
      → counters_of (in_slice tables w) tables.transactions
        ≡ counters_of (happened tables w.from (w.to + 1)) tables.transactions
  counters_of-slice w =
      let same : (k : TxRecord → Bool)
          → counted (λ t. k t && in_slice tables w t) tables.transactions
            ≡ counted (λ t. k t && happened tables w.from (w.to + 1) t) tables.transactions =
        λ k.
          counted-eq _ _ tables.transactions
            (λ t m. ap (λ h. k t && h) (in_slice-happened w t m)) in
      counters_eq (same is_special) (same (λ t. t.coinjoin)) (same (λ t. t.multisig))
        (same is_normal)
