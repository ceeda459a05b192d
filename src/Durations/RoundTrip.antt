-- ===== src/Durations/RoundTrip.antt =====
-- What is printed is read as it was.
use dashscan.Prelude.{
  ℕ, ◌+◌, ◌*◌, ◌/◌, ◌%◌, ◌<◌, ◌≡◌, refl, ap, sym, ◌∙◌, Bool, Option, none, some, true, false, ◌&&◌,
  List, [], ◌∷◌, ◌++◌, arith, ◌==◌, if◌then◌else◌, ℕ_discrete, Bool-cases, inl, inr,
}
use dashscan.Durations.{decimal, push_part, pad, fraction, seconds_part, time_part, iso8601duration}
use dashscan.Durations.Reader.{
  start, dates, times, point, seconds_read, at, step, finished, no_date, no_time, run,
  duration_in_ms,
}
use dashscan.Durations.Digits.{
  run-append, at_cong, place_of, step-point, step-second, run-decimal, pad-decimal, run-three,
}

-- A part adds its number of units, and a part that is left out changes nothing.
run-push_part :
    (n letter unit t w : ℕ) (in_time : Bool)
    → ((t n : ℕ)
        → step (at (place_of in_time) t n true w) letter
          ≡ at (place_of in_time) (t + n * unit) 0 false unit)
    → run (at (place_of in_time) t 0 false w) (push_part n letter)
      ≡ at (place_of in_time) (t + n * unit) 0 false (if n == 0 then w else unit)
unfolding push_part run
run-push_part n letter unit t w k h =
    let text = decimal n ++ letter ∷ [] in
    let before = at (place_of k) t 0 false w in
    elim (ℕ_discrete n 0) [
      | yes none' ↦
          let test : (n == 0) ≡ true = ground arith in
          let left : n * unit ≡ 0 * unit = ap (λ k. k * unit) none' in
          ap (λ b. run before (if b then [] else text)) test
          ∙ ap (λ b. at (place_of k) t 0 false (if b then w else unit)) (sym test)
          ∙ at_cong {n = 0} (place_of k) false (if n == 0 then w else unit) (omega (arith, left))
              refl
      | no some' ↦
          let test : (n == 0) ≡ false = ground arith in
          ap (λ b. run before (if b then [] else text)) test
          ∙ run-append before (decimal n) (letter ∷ [])
          ∙ ap (λ st. step st letter) (run-decimal n t w k)
          ∙ h t n
          ∙ ap (λ b. at (place_of k) (t + n * unit) 0 false (if b then w else unit)) (sym test)
    ]

run-fraction :
    (n ms t w : ℕ)
    → 0 < ms
    → ms < 1000
    → 1000 < w
    → run (at times t n true w) (fraction ms ++ b'S' ∷ [])
      ≡ at seconds_read (t + n * 1000 + ms) 0 true 0
unfolding fraction run
run-fraction n ms t w p h q =
    let test : (ms == 0) ≡ false = ground arith in
    let texts = b'.' ∷ pad 3 (decimal ms) in
    ap (λ b. run (at times t n true w) ((if b then [] else texts) ++ b'S' ∷ [])) test
    ∙ ap (λ st. run st (pad 3 (decimal ms) ++ b'S' ∷ [])) (step-point t n w q)
    ∙ ap (λ ds. run (at point (t + n * 1000) 0 false 100) (ds ++ b'S' ∷ [])) (pad-decimal ms h)
    ∙ run-three (t + n * 1000) (ms / 100) (ms / 10 % 10) (ms % 10) (omega arith) (omega arith)
        (omega arith)
    ∙ at_cong seconds_read true 0 (omega arith) refl

run-no_fraction :
    (n t w : ℕ)
    → 1000 < w
    → run (at times t n true w) (fraction 0 ++ b'S' ∷ [])
      ≡ at seconds_read (t + n * 1000) 0 false 1000
unfolding fraction run
run-no_fraction n t w q = step-second t n w q

-- The seconds end the text, and are left out where they are zero.
run-seconds_part :
    (n ms t w : ℕ)
    → ms < 1000
    → 1000 < w
    → finished (run (at times t 0 false w) (seconds_part n ms))
      ≡ (if n == 0 && ms == 0 && w == no_time then none else some (t + n * 1000 + ms))
unfolding seconds_part run
run-seconds_part n ms t w h q =
    let text = decimal n ++ (fraction ms ++ b'S' ∷ []) in
    let begin = at times t 0 false w in
    elim (Bool-cases (n == 0 && ms == 0)) [
      | inl empty ↦
          ap (λ b. finished (run begin (if b then [] else text))) empty ∙ ground (arith, empty)
      | inr full ↦
          ap (λ b. finished (run begin (if b then [] else text))) full
          ∙ ap finished (
              run-append begin (decimal n) (fraction ms ++ b'S' ∷ [])
              ∙ ap (λ st. run st (fraction ms ++ b'S' ∷ [])) (run-decimal n t w true))
          ∙ elim (ℕ_discrete ms 0) [
            | yes none' ↦
                ap (λ m. finished (run (at times t n true w) (fraction m ++ b'S' ∷ []))) none'
                ∙ ap finished (run-no_fraction n t w q)
                ∙ ap some (omega (arith, none'))
            | no part ↦ ap finished (run-fraction n ms t w (omega arith) h q)
          ]
          ∙ ap (λ b. if b && (w == no_time) then none else some (t + n * 1000 + ms)) (sym full)
    ]

step-hour :
    (t n : ℕ) → step (at times t n true no_time) b'H' ≡ at times (t + n * 3600000) 0 false 3600000
step-hour t n = refl

step-minute :
    (t n w : ℕ)
    → 60000 < w
    → step (at times t n true w) b'M' ≡ at times (t + n * 60000) 0 false 60000
step-minute t n w h = ground arith

step-day :
    (t n : ℕ) → step (at dates t n true no_date) b'D' ≡ at dates (t + n * 86400000) 0 false no_time
step-day t n = refl

-- The times after the days, of which one has to be there if there are no days.
run-time_part :
    (h m n ms t w : ℕ)
    → ms < 1000
    → (h ≡ 0 → m ≡ 0 → n ≡ 0 → ms ≡ 0 → (w == no_date) ≡ false)
    → finished (run (at dates t 0 false w) (time_part h m n ms))
      ≡ some (t + h * 3600000 + m * 60000 + n * 1000 + ms)
unfolding time_part run
run-time_part h m n ms t w r dated =
    let hours = push_part h b'H' in
    let minutes = push_part m b'M' in
    let seconds = seconds_part n ms in
    let begin = at times t 0 false no_time in
    let after_hours = if h == 0 then no_time else 3600000 in
    let after_minutes = if m == 0 then after_hours else 60000 in
    let read : finished (run begin (hours ++ (minutes ++ seconds))) ≡ (
        if n == 0 && ms == 0 && after_minutes == no_time
        then none
        else some (t + h * 3600000 + m * 60000 + n * 1000 + ms)) =
      ap finished (
        run-append begin hours (minutes ++ seconds)
        ∙ ap (λ st. run st (minutes ++ seconds))
            (run-push_part h b'H' 3600000 t no_time true (λ t n. step-hour t n))
        ∙ run-append (at times (t + h * 3600000) 0 false after_hours) minutes seconds
        ∙ ap (λ st. run st seconds)
            (run-push_part m b'M' 60000 (t + h * 3600000) after_hours true
              (λ t n. step-minute t n after_hours (ground arith))))
      ∙ run-seconds_part n ms (t + h * 3600000 + m * 60000) after_minutes r (ground arith) in
    elim (Bool-cases (h == 0 && m == 0 && n == 0 && ms == 0)) [
      | inl empty ↦
          ap
            (λ b.
              finished (
                run (at dates t 0 false w)
                  (if b then [] else b'T' ∷ hours ++ (minutes ++ seconds))))
            empty
          ∙ ap (λ b. if b then none else some t)
              (dated (ground (arith, empty)) (ground (arith, empty)) (ground (arith, empty))
                (ground (arith, empty)))
          ∙ ap some (ground (arith, empty))
      | inr full ↦
          let dated_here : (n == 0 && ms == 0 && after_minutes == no_time) ≡ false =
            ground (arith, full) in
          ap
            (λ b.
              finished (
                run (at dates t 0 false w)
                  (if b then [] else b'T' ∷ hours ++ (minutes ++ seconds))))
            full
          ∙ read
          ∙ ap (λ b. if b then none else some (t + h * 3600000 + m * 60000 + n * 1000 + ms))
              dated_here
    ]

-- A duration that is printed from whole milliseconds is one of ISO 8601, with days, hours, minutes and seconds
-- in this order, the last three after a T and with a digit at least, and up to three digits after the point;
-- and it reads as those milliseconds.
pub duration_in_ms-iso8601duration :
    (milliseconds : ℕ) → duration_in_ms (iso8601duration milliseconds) ≡ some milliseconds
unfolding duration_in_ms iso8601duration run
duration_in_ms-iso8601duration ms =
    let seconds = ms / 1000 in
    let minutes = seconds / 60 in
    let hours = minutes / 60 in
    let days = push_part (hours / 24) b'D' in
    let time = time_part (hours % 24) (minutes % 60) (seconds % 60) (ms % 1000) in
    let text : List ℕ = b'P' ∷ days ++ time in
    let zero_text : List ℕ = b'P' ∷ b'0' ∷ b'D' ∷ [] in
    let read : Bool → Option ℕ =
      λ b. finished (run (at start 0 0 false no_date) (if b then zero_text else text)) in
    elim (ℕ_discrete ms 0) [
      | yes none' ↦ let test : (ms == 0) ≡ true = ground arith in ap read test ∙ ap some (sym none')
      | no some' ↦
          let test : (ms == 0) ≡ false = ground arith in
          ap read test
          ∙ ap finished (
              run-append (at dates 0 0 false no_date) days time
              ∙ ap (λ st. run st time)
                  (run-push_part (hours / 24) b'D' 86400000 0 no_date false (λ t n. step-day t n)))
          ∙ run-time_part (hours % 24) (minutes % 60) (seconds % 60) (ms % 1000)
              (0 + hours / 24 * 86400000) (if hours / 24 == 0 then no_date else no_time)
              (omega arith) (λ h m n l. ground arith)
          ∙ ap some (omega arith)
    ]
