-- ===== src/Governance/Series/Windows.antt =====
-- The votes that the loop puts in each bucket.
use dashscan.Prelude.{
  ℕ, suc, ◌+◌, ◌*◌, ◌≤◌, ◌<◌, ◌≡◌, refl, ap, ◌∙◌, Bool, true, false, ◌&&◌, ◌||◌, String, Option,
  none, some, List, [], ◌∷◌, arith, leb, ◌==◌, if◌then◌else◌, length, tabulate, length-tabulate,
  tabulate_ext, dec_lt, sym,
}
use mathlib.Core.Path.{ap₂}
use dashscan.Prelude.Maps.{Dict}
use dashscan.Governance.Votes.{
  ProposalVote, from_raw, Tally, add_vote, plus, plus-add_vote-left, plus-add_vote-right,
}
use dashscan.Governance.Series.{
  Bucket, at, Counts, add_at, place_vote, weight_in, is_funding, count_vote, count_votes,
}
use dashscan.Governance.Series.Steps.{
  is_in, index_of-before, index_of-at, is_in-eq, add_at-tabulate,
}

module _ (number : String → Option ℕ) (weight_map : Dict ℕ) where
  -- The weighted tally of the funding votes whose time passes a test, added to one before.
  abbrev pub add_if : Bool → ProposalVote → Tally → Tally
  add_if test v t = if test then add_vote v.outcome (weight_in weight_map v.outpoint) t else t

  abbrev pub add_counted : (ℕ → Bool) → Option ProposalVote → Tally → Tally
  add_counted during none t = t
  add_counted during (some v) t = add_if (during v.time) v t

  unfoldable pub tally_when : (ℕ → Bool) → List String → Tally → Tally
  unfolding from_raw add_vote
  tally_when during [] t = t
  tally_when during (raw ∷ raws) t =
      tally_when during raws (add_counted during (is_funding (from_raw number raw)) t)

  -- The buckets of a tally that depends on the index.
  abbrev pub bucket_row : ℕ → ℕ → ℕ → (ℕ → Tally) → List Bucket
  bucket_row start step n h = tabulate n 0 (λ i. record { from = start + i * step; votes = h i })

  abbrev pub in_window : ℕ → ℕ → ℕ → ℕ → Bool
  in_window start step i time = is_in (start + i * step) (start + suc i * step) time

  abbrev pub counts_row : ℕ → ℕ → ℕ → Tally → (ℕ → Tally) → Option Counts
  counts_row start step n base h =
      some (record { base = base; buckets = bucket_row start step n h })

  counts_row_cong :
      (start step n : ℕ) (b b' : Tally) (h h' : ℕ → Tally)
      → b ≡ b'
      → ((i : ℕ) → i < n → h i ≡ h' i)
      → counts_row start step n b h ≡ counts_row start step n b' h'
  counts_row_cong start step n b b' h h' e f =
      ap₂ (λ base buckets. some (record { base = base; buckets = buckets })) e
        (tabulate_ext n 0 _ _
          (λ i p q. ap (λ t. record { from = start + i * step; votes = t }) (f i (omega arith))))

  add_if_cong : (c d : Bool) (v : ProposalVote) (t : Tally) → c ≡ d → add_if c v t ≡ add_if d v t
  add_if_cong c d v t e = ap (λ c. add_if c v t) e

  count_vote-row-before :
      (start step n : ℕ) (v : ProposalVote) (base : Tally) (h : ℕ → Tally)
      → 0 < step
      → v.time ≤ start
      → count_vote number weight_map start step
          (some v)
          (record { base = base; buckets = bucket_row start step n h })
        ≡ counts_row start step n
            (add_counted (λ t. leb t start) (some v) base)
            (λ i. add_counted (in_window start step i) (some v) (h i))
  unfolding place_vote
  count_vote-row-before start step n v base h p early =
      rw (index_of-before start step v.time early p) (
        counts_row_cong start step n _ _ _ _ (add_if_cong true _ v base (ground arith))
          (λ i q. add_if_cong false _ v (h i) (ground arith)))

  place_vote-row :
      (start step n q : ℕ) (v : ProposalVote) (base : Tally) (h : ℕ → Tally)
      → place_vote v.outcome
          (weight_in weight_map v.outpoint)
          (at q)
          (record { base = base; buckets = bucket_row start step n h })
        ≡ counts_row start step n base (λ i. add_if (i == q) v (h i))
  unfolding place_vote
  place_vote-row start step n q v base h =
      let weight = weight_in weight_map v.outpoint in
      let row = bucket_row start step n h in
      let len : length row ≡ n = length-tabulate n 0 _ in
      let added : Option Counts =
        some (record { base = base; buckets = add_at q (add_vote v.outcome weight) row }) in
      let old : Option Counts = some (record { base = base; buckets = row }) in
      elim (dec_lt q n) [
        | yes inside ↦
            let test : leb (length row) q ≡ false = ground (arith, len) in
            ap (λ b. if b then old else added) test
            ∙ ap (λ bs. some (record { base = base; buckets = bs }))
                (add_at-tabulate q n 0 (add_vote v.outcome weight) (λ i. start + i * step) h)
            ∙ counts_row_cong start step n base base _ _ refl
                (λ i p. ap (λ k. add_if (i == k) v (h i)) (omega arith))
        | no outside ↦
            let test : leb (length row) q ≡ true = ground (arith, len) in
            ap (λ b. if b then old else added) test
            ∙ counts_row_cong start step n base base _ _ refl
                (λ i p. add_if_cong false (i == q) v (h i) (ground arith))
      ]

  count_vote-row-at :
      (start step n : ℕ) (v : ProposalVote) (base : Tally) (h : ℕ → Tally)
      → 0 < step
      → start < v.time
      → count_vote number weight_map start step
          (some v)
          (record { base = base; buckets = bucket_row start step n h })
        ≡ counts_row start step n
            (add_counted (λ t. leb t start) (some v) base)
            (λ i. add_counted (in_window start step i) (some v) (h i))
  count_vote-row-at start step n v base h p late = rw (index_of-at start step v.time late p) (
      place_vote-row start step n _ v base h
      ∙ counts_row_cong start step n _ _ _ _ (add_if_cong false _ v base (ground arith))
          (λ i q. add_if_cong _ _ v (h i) (is_in-eq start step v.time i late p)))

  count_vote-row :
      (start step n : ℕ) (v : Option ProposalVote) (base : Tally) (h : ℕ → Tally)
      → 0 < step
      → count_vote number weight_map start step v
          (record { base = base; buckets = bucket_row start step n h })
        ≡ counts_row start step n
            (add_counted (λ t. leb t start) v base)
            (λ i. add_counted (in_window start step i) v (h i))
  count_vote-row start step n none base h p = refl
  count_vote-row start step n (some v) base h p = elim (dec_lt start v.time) [
    | yes late ↦ count_vote-row-at start step n v base h p late
    | no early ↦ count_vote-row-before start step n v base h p (omega arith)
  ]

  pub count_votes-row :
      (start step n : ℕ) (raws : List String) (base : Tally) (h : ℕ → Tally)
      → 0 < step
      → count_votes number weight_map start step raws (counts_row start step n base h)
        ≡ counts_row start step n
            (tally_when (λ t. leb t start) raws base)
            (λ i. tally_when (in_window start step i) raws (h i))
  unfolding count_votes tally_when
  count_votes-row start step n [] base h p = refl
  count_votes-row start step n (raw ∷ raws) base h p =
      let v = is_funding (from_raw number raw) in
      ap (count_votes number weight_map start step raws) (count_vote-row start step n v base h p)
      ∙ count_votes-row start step n raws (add_counted (λ t. leb t start) v base)
          (λ i. add_counted (in_window start step i) v (h i)) p

  plus-add_if :
      (c d : Bool) (v : ProposalVote) (a b : Tally)
      → (c && d) ≡ false
      → plus (add_if c v a) (add_if d v b) ≡ add_if (c || d) v (plus a b)
  plus-add_if true true v a b h = absurd (cc h)
  plus-add_if true false v a b h =
      plus-add_vote-left v.outcome (weight_in weight_map v.outpoint) a b
  plus-add_if false true v a b h =
      plus-add_vote-right v.outcome (weight_in weight_map v.outpoint) a b
  plus-add_if false false v a b h = refl

  plus-add_counted :
      (p q r : ℕ → Bool) (v : Option ProposalVote) (a b : Tally)
      → ((t : ℕ) → r t ≡ (p t || q t))
      → ((t : ℕ) → (p t && q t) ≡ false)
      → plus (add_counted p v a) (add_counted q v b) ≡ add_counted r v (plus a b)
  plus-add_counted p q r none a b e d = refl
  plus-add_counted p q r (some v) a b e d =
      plus-add_if (p v.time) (q v.time) v a b (d v.time)
      ∙ add_if_cong _ _ v (plus a b) (sym (e v.time))

  -- Votes before some moment and votes in the step from there on are the votes before its end.
  pub plus-tally_when :
      (p q r : ℕ → Bool) (raws : List String) (a b : Tally)
      → ((t : ℕ) → r t ≡ (p t || q t))
      → ((t : ℕ) → (p t && q t) ≡ false)
      → plus (tally_when p raws a) (tally_when q raws b) ≡ tally_when r raws (plus a b)
  unfolding tally_when
  plus-tally_when p q r [] a b e d = refl
  plus-tally_when p q r (raw ∷ raws) a b e d =
      let v = is_funding (from_raw number raw) in
      plus-tally_when p q r raws (add_counted p v a) (add_counted q v b) e d
      ∙ ap (tally_when r raws) (plus-add_counted p q r v a b e d)
