-- ===== src/Governance/Series/Steps.antt =====
-- The steps of a window: how many buckets there are, and which one a time belongs to.
use dashscan.Prelude.{
  ℕ, zero, suc, ◌+◌, ◌-◌, ◌*◌, ◌/◌, ◌≤◌, ◌<◌, ◌≡◌, refl, ap, ◌∙◌, Bool, ◌&&◌, ◌∷◌, arith, leb, ltb,
  ◌==◌, if◌then◌else◌, tabulate, tabulate_ext, dec_lt, lt→ltb, inl, inr, sym, ◌⊎◌,
}
use mathlib.Core.Path.{ap₂}
use native.Mathlib.Nat.{
  div-mul-le_self, lt-div-mul-add, mul-le-mul_right, div-eq_of_lt, div-le_self,
}
use dashscan.Governance.Votes.{Tally}
use dashscan.Governance.Series.{
  empty_bucket, push_buckets, buckets_of, before, at, index_of, add_at,
}

push_buckets-eq-tabulate :
    (fuel step end start n m to : ℕ)
    → 0 < step
    → n ≤ fuel
    → to ≡ start + m * step + step
    → (n ≡ 0) ⊎ (start + (m + n) * step ≤ end)
    → end < start + (m + n) * step + step
    → push_buckets fuel step end to ≡ tabulate n m (λ i. empty_bucket (start + i * step))
unfolding push_buckets
push_buckets-eq-tabulate zero step end start zero m to p q e l u = refl
push_buckets-eq-tabulate (suc fuel) step end start zero m to p q e l u = ground arith
push_buckets-eq-tabulate zero step end start (suc n) m to p q e l u = absurd (omega arith)
push_buckets-eq-tabulate (suc fuel) step end start (suc n) m to p q e l u =
    let next : start + suc m * step + step ≡ to + step = omega arith in
    let low : to ≤ end = ground arith in
    let head : to - step ≡ start + m * step = omega arith in
    let tail =
      push_buckets-eq-tabulate fuel step end start n (suc m) (to + step) p (omega arith) (sym next)
        (inr (omega arith)) (omega arith) in
    ground (arith, tail)

pub add_at-tabulate :
    (k n m : ℕ) (f : Tally → Tally) (g : ℕ → ℕ) (h : ℕ → Tally)
    → add_at k f (tabulate n m (λ i. record { from = g i; votes = h i }))
      ≡ tabulate n m (λ i. record { from = g i; votes = if i == m + k then f (h i) else h i })
unfolding add_at
add_at-tabulate k zero m f g h = refl
add_at-tabulate zero (suc n) m f g h =
    ap₂ (λ b bs. b ∷ bs) (ap (λ t. record { from = g m; votes = t }) (ground arith))
      (tabulate_ext n (suc m) _ _
        (λ i p q. ap (λ t. record { from = g i; votes = t }) (ground arith)))
add_at-tabulate (suc k) (suc n) m f g h =
    ap₂ (λ b bs. b ∷ bs) (ap (λ t. record { from = g m; votes = t }) (ground arith))
      (add_at-tabulate k n (suc m) f g h
        ∙ tabulate_ext n (suc m) _ _
            (λ i p q. ap (λ t. record { from = g i; votes = t }) (ground arith)))

pub buckets_of-eq-tabulate :
    (start end step : ℕ)
    → 0 < step
    → buckets_of start end step
      ≡ tabulate ((end - start) / step) 0 (λ i. empty_bucket (start + i * step))
unfolding buckets_of
buckets_of-eq-tabulate start end step p =
    let n = (end - start) / step in
    let low = div-mul-le_self (end - start) step in
    let high = lt-div-mul-add {a = end - start} p in
    let few = div-le_self (end - start) step in
    let ends : (n ≡ 0) ⊎ (start + (0 + n) * step ≤ end) = elim (dec_lt end start) [
      | yes back ↦ inl (div-eq_of_lt {n = end - start} {m = step} (omega arith))
      | no forth ↦ inr (omega arith)
    ] in
    rw (lt→ltb 0 step p) (
      push_buckets-eq-tabulate (end - start) step end start n 0 (start + step) p few (omega arith)
        ends (omega arith))

-- Where a vote goes, and the windows that the answer speaks of.
abbrev pub is_in : ℕ → ℕ → ℕ → Bool
is_in low high time = ltb low time && leb time high

pub index_of-before :
    (start step time : ℕ) → time ≤ start → 0 < step → index_of start step time ≡ before
unfolding index_of
index_of-before start step time q p = ground arith

pub index_of-at :
    (start step time : ℕ)
    → start < time
    → 0 < step
    → index_of start step time ≡ at ((time - start - 1) / step)
unfolding index_of
index_of-at start step time q p = ground arith

is_in-eq' :
    (start step time i q : ℕ)
    → start < time
    → q * step ≤ time - start - 1
    → time - start - 1 < q * step + step
    → (i == q) ≡ is_in (start + i * step) (start + suc i * step) time
is_in-eq' start step time i q after low high = elim (dec_lt i q) [
  | yes below ↦ let h = mul-le-mul_right {m = suc i} {n = q} step below in ground arith
  | no other ↦ elim (dec_lt q i) [
    | yes above ↦ let h = mul-le-mul_right {m = suc q} {n = i} step above in ground arith
    | no same ↦
        let e : i ≡ q = omega arith in
        let h : i * step ≡ q * step = ap (λ k. k * step) e in ground arith
  ]
]

pub is_in-eq :
    (start step time i : ℕ)
    → start < time
    → 0 < step
    → (i == (time - start - 1) / step) ≡ is_in (start + i * step) (start + suc i * step) time
is_in-eq start step time i after p =
    is_in-eq' start step time i ((time - start - 1) / step) after
      (div-mul-le_self (time - start - 1) step) (lt-div-mul-add p)
