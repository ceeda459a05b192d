-- ===== src/Buckets/Ranges.antt =====
-- How many ranges a window has, and where they are.
use dashscan.Prelude.{
  ℕ, zero, suc, ◌+◌, ◌-◌, ◌*◌, ◌/◌, ◌≤◌, ◌<◌, ◌≡◌, ◌⊎◌, inl, inr, refl, ap, sym, some, arith,
  lt→ltb, dec_lt, tabulate,
}
use native.Mathlib.Nat.{div-mul-le_self, lt-div-mul-add, div-eq_of_lt, div-le_self}
use dashscan.Prelude.Windows.{Window}
use dashscan.Buckets.{ranges_from, ranges}

abbrev pub step_window : ℕ → ℕ → ℕ → Window
step_window start step i = record { from = start + i * step; to = start + suc i * step }

ranges_from-eq-tabulate :
    (fuel step end start n m from to : ℕ)
    → 0 < step
    → n ≤ fuel
    → from ≡ start + m * step
    → to ≡ start + m * step + step
    → (n ≡ 0) ⊎ (start + (m + n) * step ≤ end)
    → end < start + (m + n) * step + step
    → ranges_from fuel step end from to ≡ tabulate n m (step_window start step)
unfolding ranges_from
ranges_from-eq-tabulate zero step end start zero m from to p q a e l u = refl
ranges_from-eq-tabulate (suc fuel) step end start zero m from to p q a e l u = ground arith
ranges_from-eq-tabulate zero step end start (suc n) m from to p q a e l u = absurd (omega arith)
ranges_from-eq-tabulate (suc fuel) step end start (suc n) m from to p q a e l u =
    let next : to + step ≡ start + suc m * step + step = omega arith in
    let low : to ≤ end = ground arith in
    let head : start + suc m * step ≡ to = omega arith in
    let tail =
      ranges_from-eq-tabulate fuel step end start n (suc m) to (to + step) p (omega arith)
        (sym head) next (inr (omega arith)) (omega arith) in
    ground (arith, tail)

pub ranges-eq-tabulate :
    (start end step : ℕ)
    → 0 < step
    → ranges start end step step ≡ some (tabulate ((end - start) / step) 0 (step_window start step))
unfolding ranges
ranges-eq-tabulate start end step p =
    let n = (end - start) / step in
    let low = div-mul-le_self (end - start) step in
    let high = lt-div-mul-add {a = end - start} p in
    let few = div-le_self (end - start) step in
    let ends : (n ≡ 0) ⊎ (start + (0 + n) * step ≤ end) = elim (dec_lt end start) [
      | yes back ↦ inl (div-eq_of_lt {n = end - start} {m = step} (omega arith))
      | no forth ↦ inr (omega arith)
    ] in
    rw (lt→ltb 0 step p) (
      ap some (
        ranges_from-eq-tabulate (suc (end - start)) step end start n 0 start (start + step) p
          (omega (arith, few)) (omega arith) (omega arith) ends (omega (arith, high))))
