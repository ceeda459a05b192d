-- ===== src/Buckets/Series.antt =====
-- The rows of the two series, and the replies that carry them.
use mathlib.Core.Option
use mathlib.Core.Path.{ap₂}
use dashscan.Prelude.{
  ℕ, zero, suc, ◌+◌, ◌-◌, ◌*◌, ◌/◌, ◌≡◌, refl, ap, ◌∙◌, Bool, true, false, Option, List, [], ◌∷◌,
  map, keep, arith, tabulate, if◌then◌else◌, length, ◌==◌,
}
use dashscan.Governance.Series.Steps.{is_in}
use dashscan.Intervals.{interval_in_ms}
use dashscan.Handlers.{SeriesQuery, query_start, query_end}
use dashscan.Buckets.{BlockCount, SeriesEntry, in_range, buckets, count_in, running_sums}
use dashscan.Buckets.Ranges.{step_window}

pub map-tabulate :
    {A B : Type 0} (f : A → B) (n m : ℕ) (g : ℕ → A)
    → map f (tabulate n m g) ≡ tabulate n m (λ i. f (g i))
map-tabulate f zero m g = refl
map-tabulate f (suc n) m g = ap (λ xs. f (g m) ∷ xs) (map-tabulate f n (suc m) g)

-- From where entry i counts: the start of the window in a running total, and else the start of its step.
abbrev pub counts_from : Bool → ℕ → ℕ → ℕ → ℕ
counts_from true start step i = start
counts_from false start step i = start + i * step

abbrev pub entry : Bool → ℕ → ℕ → List BlockCount → ℕ → SeriesEntry ℕ
entry running_total start step blocks i = record {
  timestamp = start + i * step;
  value = count_in blocks (is_in (counts_from running_total start step i) (start + suc i * step));
}

abbrev pub average_entry :
    {V : Type 0} → V → (ℕ → ℕ → V) → ℕ → ℕ → List BlockCount → ℕ → SeriesEntry V
average_entry zero_average average start step blocks i = record {
  timestamp = start + i * step;
  value =
      let within = is_in (start + i * step) (start + suc i * step) in
      let n = length (keep (λ b. within b.timestamp) blocks) in
      if n == 0 then zero_average else average (count_in blocks within) n;
}

count_in-join :
    (blocks : List BlockCount) (p q r : ℕ → Bool)
    → ((t : ℕ) → (if p t then 1 else 0) + (if q t then 1 else 0) ≡ (if r t then 1 else 0))
    → count_in blocks p + count_in blocks q ≡ count_in blocks r
count_in-join [] p q r h = refl
count_in-join (b ∷ bs) p q r h = ground (arith, h b.timestamp, count_in-join bs p q r h)

running_sums-tabulate :
    (start step n m total : ℕ) (blocks : List BlockCount)
    → total ≡ count_in blocks (in_range (record { from = start; to = start + m * step }))
    → running_sums total (tabulate n m (entry false start step blocks))
      ≡ tabulate n m (entry true start step blocks)
unfolding running_sums
running_sums-tabulate start step zero m total blocks e = refl
running_sums-tabulate start step (suc n) m total blocks e =
    let here =
      ap (λ k. k + count_in blocks (in_range (step_window start step m))) e
      ∙ count_in-join blocks (in_range (record { from = start; to = start + m * step }))
          (in_range (step_window start step m))
          (in_range (record { from = start; to = start + suc m * step })) (λ t. ground arith) in
    ap₂ (λ k rows. record { timestamp = start + m * step; value = k } ∷ rows) here
      (running_sums-tabulate start step n (suc m) _ blocks here)

count_in_none :
    (start step : ℕ) (blocks : List BlockCount)
    → 0 ≡ count_in blocks (in_range (record { from = start; to = start + 0 * step }))
count_in_none start step [] = refl
count_in_none start step (b ∷ bs) = ground (arith, count_in_none start step bs)

rows_of :
    (running_total : Bool) (start step n : ℕ) (blocks : List BlockCount)
    → (let rows =
          buckets (λ w. count_in blocks (in_range w)) (tabulate n 0 (step_window start step)) in
        if running_total then running_sums 0 rows else rows)
      ≡ tabulate n 0 (entry running_total start step blocks)
rows_of false start step n blocks = map-tabulate _ n 0 (step_window start step)
rows_of true start step n blocks =
    ap (running_sums 0) (map-tabulate _ n 0 (step_window start step))
    ∙ running_sums-tabulate start step n 0 0 blocks (count_in_none start step blocks)

-- The width for a count.
abbrev pub width_of : ℕ → ℕ → SeriesQuery → ℕ
width_of now count q = interval_in_ms (query_end now q - query_start now q) count

abbrev pub entries : ℕ → ℕ → SeriesQuery → ℕ
entries now count q = (query_end now q - query_start now q) / width_of now count q
