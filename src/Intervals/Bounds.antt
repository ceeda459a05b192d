-- ===== src/Intervals/Bounds.antt =====
-- How many buckets the chosen width gives.
use dashscan.Prelude.{
  ◌%◌, ℕ, suc, ◌+◌, ◌-◌, ◌*◌, ◌/◌, ◌≤◌, ◌<◌, ◌≡◌, refl, ap, ◌∙◌, String, List, [], ◌∷◌, arith, ltb,
  if◌then◌else◌, dec_lt, drop, All,
}
use native.Mathlib.Nat.{lt-div-mul-add, div-le_of_le-mul, div-mul-le_self, mul-le-mul_right}
use dashscan.Intervals.{reduce_step, reduce_from, intervals, calculate_interval, interval_in_ms}

-- Widths from `low` on, in ascending order and each at most twelve times the one before, and the last.
abbrev IsClose : ℕ → List (String × ℕ) → Type 0
IsClose low [] = Unit
IsClose low (x ∷ xs) = (low ≤ x.1) × (x.1 ≤ 12 * low) × IsClose x.1 xs

abbrev last_width : ℕ → List (String × ℕ) → ℕ
last_width low [] = low
last_width low (x ∷ xs) = last_width x.1 xs

reduce_step-eq :
    (period index : ℕ) (p x : String × ℕ)
    → reduce_step period (suc index) p x ≡ (if ltb period (4 * x.1) then p else x)
unfolding reduce_step
reduce_step-eq period index p x = ground arith

-- Once a width fits less than four times, so do the later ones.
reduce_from-stop :
    (period index low : ℕ) (p : String × ℕ) (xs : List (String × ℕ))
    → IsClose low xs
    → period < 4 * low
    → reduce_from period (suc index) p xs ≡ p
unfolding reduce_from
reduce_from-stop period index low p [] a h = refl
reduce_from-stop period index low p (x ∷ xs) a h =
    let step : reduce_step period (suc index) p x ≡ p =
      ground (arith, reduce_step-eq period index p x) in
    ap (λ q. reduce_from period (suc (suc index)) q xs) step
    ∙ reduce_from-stop period (suc index) x.1 p xs a.2 (omega (arith, a.0))

-- What the width that is chosen from `p` on satisfies.
abbrev pub IsFit : ℕ → ℕ → Type 0
IsFit period width = (4 * width ≤ period) × (period < 48 * width)

reduce_from-IsFit :
    (period index : ℕ) (p : String × ℕ) (xs : List (String × ℕ))
    → IsClose p.1 xs
    → 4 * p.1 ≤ period
    → period < 48 * last_width p.1 xs
    → IsFit period (reduce_from period (suc index) p xs).1
unfolding reduce_from
reduce_from-IsFit period index p [] a l u = (l, u)
reduce_from-IsFit period index p (x ∷ xs) a l u = elim (dec_lt period (4 * x.1)) [
  | yes over ↦
      let step : reduce_step period (suc index) p x ≡ p =
        ground (arith, reduce_step-eq period index p x) in
      rw (step, reduce_from)
        (rw (reduce_from-stop period (suc index) x.1 p xs a.2 over) (l, omega (arith, a.1)))
  | no fits ↦
      let step : reduce_step period (suc index) p x ≡ x =
        ground (arith, reduce_step-eq period index p x) in
      rw (step, reduce_from) (reduce_from-IsFit period (suc index) x xs a.2 (omega arith) u)
]

-- The width fits four times, and less than 48 times.
pub calculate_interval-IsFit :
    (period : ℕ)
    → 4 * 300000 ≤ period
    → period < 48 * 29030400000
    → IsFit period (calculate_interval period).1
unfolding calculate_interval
calculate_interval-IsFit period l u =
    reduce_from-IsFit period 0 ("PT5M", 300000) (drop 1 intervals) (ground arith) l u

reduce_from_ge :
    (period index low : ℕ) (p : String × ℕ) (xs : List (String × ℕ))
    → low ≤ p.1
    → All (λ x. low ≤ x.1) xs
    → low ≤ (reduce_from period (suc index) p xs).1
unfolding reduce_from
reduce_from_ge period index low p [] h a = h
reduce_from_ge period index low p (x ∷ xs) h a = elim (dec_lt period (4 * x.1)) [
  | yes over ↦
      let step : reduce_step period (suc index) p x ≡ p =
        ground (arith, reduce_step-eq period index p x) in
      rw (step, reduce_from) (reduce_from_ge period (suc index) low p xs h a.1)
  | no fits ↦
      let step : reduce_step period (suc index) p x ≡ x =
        ground (arith, reduce_step-eq period index p x) in
      rw (step, reduce_from) (reduce_from_ge period (suc index) low x xs a.0 a.1)
]

pub calculate_interval_ge : (period : ℕ) → 300000 ≤ (calculate_interval period).1
unfolding calculate_interval
calculate_interval_ge period =
    reduce_from_ge period 0 300000 ("PT5M", 300000) (drop 1 intervals) (omega arith) (ground arith)

pub interval_in_ms_ge :
    (period count : ℕ) → 0 < count → period ≤ interval_in_ms period count * count
unfolding interval_in_ms
interval_in_ms_ge period count p =
    let up = lt-div-mul-add {a = period + (count * 1000 - 1)} {b = count * 1000} (omega arith) in
    omega (arith, up)

-- It is whole seconds, and a second less would not cover the period.
pub interval_in_ms-seconds : (period count : ℕ) → interval_in_ms period count % 1000 ≡ 0
unfolding interval_in_ms
interval_in_ms-seconds period count =
    let seconds = (period + (count * 1000 - 1)) / (count * 1000) in omega arith

pub interval_in_ms_lt :
    (period count : ℕ) → 0 < count → interval_in_ms period count * count < period + 1000 * count
unfolding interval_in_ms
interval_in_ms_lt period count p =
    let low = div-mul-le_self (period + (count * 1000 - 1)) (count * 1000) in omega (arith, low)

-- A count of intervals gives at most that many.
pub interval_in_ms-count :
    (period count : ℕ) → 0 < count → period / interval_in_ms period count ≤ count
interval_in_ms-count period count p =
    div-le_of_le-mul (interval_in_ms period count) (interval_in_ms_ge period count p)

pub interval_in_ms-positive :
    (period count : ℕ) → 0 < period → 0 < count → 0 < interval_in_ms period count
interval_in_ms-positive period count p q =
    let ge = interval_in_ms_ge period count q in
    elim (dec_lt 0 (interval_in_ms period count)) [
      | yes above ↦ above
      | no none' ↦
          let e : interval_in_ms period count * count ≡ 0 * count =
            ap (λ k. k * count) (omega arith) in
          absurd (omega arith)
    ]

-- For a period of at least 20 minutes and less than 48 of the longest widths, the chosen width fits
-- in it at least 4 and fewer than 48 times.
pub calculate_interval-count :
    (period : ℕ)
    → 4 * 300000 ≤ period
    → period < 48 * 29030400000
    → (4 ≤ period / (calculate_interval period).1) × (period / (calculate_interval period).1 < 48)
calculate_interval-count period l u =
    let w = (calculate_interval period).1 in
    let (low, high) = calculate_interval-IsFit period l u in
    let under = lt-div-mul-add {a = period} {b = w} (omega arith) in
    let over = div-mul-le_self period w in
    (
      elim (dec_lt (period / w) 4) [
        | yes few ↦
            let h = mul-le-mul_right {m = period / w} {n = 3} w (omega arith) in
            absurd (omega arith)
        | no many ↦ omega arith
      ],
      elim (dec_lt (period / w) 48) [
        | yes few ↦ few
        | no many ↦
            let h = mul-le-mul_right {m = 48} {n = period / w} w (omega arith) in
            absurd (omega arith)
      ],
    )
