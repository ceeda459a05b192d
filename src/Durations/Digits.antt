-- ===== src/Durations/Digits.antt =====
-- How the reader goes through digits.
use dashscan.Prelude.{
  ℕ, zero, suc, ◌+◌, ◌*◌, ◌/◌, ◌%◌, ◌≤◌, ◌<◌, ◌≡◌, refl, ap, ◌∙◌, Bool, true, false, List, [], ◌∷◌,
  ◌++◌, arith, dec_lt,
}
use mathlib.Core.Path.{ap₂}
use dashscan.Durations.{digits, decimal, pad}
use dashscan.Durations.Reader.{Place, dates, times, point, seconds_read, Reading, at, step, run}

pub run-append : (st : Reading) (xs ys : List ℕ) → run st (xs ++ ys) ≡ run (run st xs) ys
unfolding run
run-append st [] ys = refl
run-append st (x ∷ xs) ys = run-append (step st x) xs ys

pub at_cong :
    {t t' n n' : ℕ} (p : Place) (b : Bool) (w : ℕ) → t ≡ t' → n ≡ n' → at p t n b w ≡ at p t' n' b w
at_cong p b w e f = ap₂ (λ t n. at p t n b w) e f

-- The two places where whole numbers are read.
abbrev pub place_of : Bool → Place
place_of true = times
place_of false = dates

step-digit :
    (in_time : Bool) (t n w d : ℕ) (b : Bool)
    → d < 10
    → step (at (place_of in_time) t n b w) (b'0' + d) ≡ at (place_of in_time) t (n * 10 + d) true w
step-digit true t n w d b h = ground arith
step-digit false t n w d b h = ground arith

step-decimal_place :
    (t w d : ℕ) (b : Bool)
    → d < 10
    → 0 < w
    → step (at point t 0 b w) (b'0' + d) ≡ at point (t + d * w) 0 true (w / 10)
step-decimal_place t w d b h p = ground arith

pub step-point :
    (t n w : ℕ) → 1000 < w → step (at times t n true w) b'.' ≡ at point (t + n * 1000) 0 false 100
step-point t n w h = ground arith

pub step-second :
    (t n w : ℕ)
    → 1000 < w
    → step (at times t n true w) b'S' ≡ at seconds_read (t + n * 1000) 0 false 1000
step-second t n w h = ground arith

digits-small : (fuel n : ℕ) → n < 10 → digits (suc fuel) n ≡ (b'0' + n) ∷ []
unfolding digits
digits-small fuel n h = ground arith

digits-large :
    (fuel n : ℕ) → 10 ≤ n → digits (suc fuel) n ≡ digits fuel (n / 10) ++ (b'0' + n % 10) ∷ []
unfolding digits
digits-large fuel n h = ground arith

run-digits :
    (fuel n t w : ℕ) (in_time : Bool)
    → n < fuel
    → run (at (place_of in_time) t 0 false w) (digits fuel n) ≡ at (place_of in_time) t n true w
unfolding run
run-digits zero n t w k h = absurd (omega arith)
run-digits (suc fuel) n t w k h = elim (dec_lt n 10) [
  | yes small ↦
      ap (run (at (place_of k) t 0 false w)) (digits-small fuel n small)
      ∙ step-digit k t 0 w n false small
      ∙ at_cong (place_of k) true w refl (omega arith)
  | no large ↦
      ap (run (at (place_of k) t 0 false w)) (digits-large fuel n (omega arith))
      ∙ run-append (at (place_of k) t 0 false w) (digits fuel (n / 10)) ((b'0' + n % 10) ∷ [])
      ∙ ap (λ st. step st (b'0' + n % 10)) (run-digits fuel (n / 10) t w k (omega arith))
      ∙ step-digit k t (n / 10) w (n % 10) true (omega arith)
      ∙ at_cong (place_of k) true w refl (omega arith)
]

pub run-decimal :
    (n t w : ℕ) (in_time : Bool)
    → run (at (place_of in_time) t 0 false w) (decimal n) ≡ at (place_of in_time) t n true w
run-decimal n t w k = run-digits (suc n) n t w k (omega arith)

digits-one : (fuel n : ℕ) → 0 < fuel → n < 10 → digits fuel n ≡ (b'0' + n) ∷ []
digits-one zero n p h = absurd (omega arith)
digits-one (suc fuel) n p h = digits-small fuel n h

digits-two :
    (fuel n : ℕ)
    → 1 < fuel
    → 10 ≤ n
    → n < 100
    → digits fuel n ≡ (b'0' + n / 10) ∷ (b'0' + n % 10) ∷ []
digits-two zero n p h k = absurd (omega arith)
digits-two (suc fuel) n p h k =
    digits-large fuel n h
    ∙ ap (λ ds. ds ++ (b'0' + n % 10) ∷ []) (digits-one fuel (n / 10) (omega arith) (omega arith))

three_digits : {a a' b b' c c' : ℕ} → a ≡ a' → b ≡ b' → c ≡ c' → a ∷ b ∷ c ∷ [] ≡ a' ∷ b' ∷ c' ∷ []
three_digits e f g = λ i. e i ∷ f i ∷ g i ∷ []

-- Below a thousand, the padded digits are three.
pub pad-decimal :
    (n : ℕ)
    → n < 1000
    → pad 3 (decimal n) ≡ (b'0' + n / 100) ∷ (b'0' + n / 10 % 10) ∷ (b'0' + n % 10) ∷ []
pad-decimal n h = elim (dec_lt n 10) [
  | yes one ↦
      ap (pad 3) (digits-one (suc n) n (omega arith) one)
      ∙ three_digits (omega arith) (omega arith) (omega arith)
  | no more ↦ elim (dec_lt n 100) [
    | yes two ↦
        ap (pad 3) (digits-two (suc n) n (omega arith) (omega arith) two)
        ∙ three_digits (omega arith) (omega arith) (omega arith)
    | no many ↦
        ap (pad 3) (
          digits-large n n (omega arith)
          ∙ ap (λ ds. ds ++ (b'0' + n % 10) ∷ [])
              (digits-two n (n / 10) (omega arith) (omega arith) (omega arith)))
        ∙ three_digits (omega arith) (omega arith) (omega arith)
  ]
]

-- After the point, three digits are milliseconds.
pub run-three :
    (t a b c : ℕ)
    → a < 10
    → b < 10
    → c < 10
    → run (at point t 0 false 100) ((b'0' + a) ∷ (b'0' + b) ∷ (b'0' + c) ∷ b'S' ∷ [])
      ≡ at seconds_read (t + a * 100 + b * 10 + c * 1) 0 true 0
unfolding run
run-three t a b c h k l =
    ap (λ st. step (step (step st (b'0' + b)) (b'0' + c)) b'S')
      (step-decimal_place t 100 a false h (omega arith))
    ∙ ap (λ st. step (step st (b'0' + c)) b'S')
        (step-decimal_place (t + a * 100) 10 b true k (omega arith))
    ∙ ap (λ st. step st b'S') (step-decimal_place (t + a * 100 + b * 10) 1 c true l (omega arith))
