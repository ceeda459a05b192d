-- ===== src/Durations.antt =====
-- `iso8601duration` of api/src/utils.ts, at whole numbers of milliseconds from 0 on, which is what its callers
-- pass. A text is the list of the codes of its characters.
pub mod Reader
pub mod Digits
pub mod RoundTrip
mod Tests
use dashscan.Prelude.{
  ℕ, zero, suc, ◌+◌, ◌*◌, ◌/◌, ◌%◌, Bool, true, false, ◌&&◌, List, [], ◌∷◌, ◌++◌, ltb, ◌==◌,
  if◌then◌else◌, length,
}

-- The decimal digits of a number, of which there are at most as many as the fuel `n + 1`.
unfoldable pub digits : ℕ → ℕ → List ℕ
digits zero n = []
digits (suc fuel) n =
    let more = digits fuel (n / 10) in
    if ltb n 10 then (b'0' + n) ∷ [] else more ++ (b'0' + n % 10) ∷ []

abbrev pub decimal : ℕ → List ℕ
decimal n = digits (suc n) n

-- if (n) parts.push(n + unit)
unfoldable pub push_part : ℕ → ℕ → List ℕ
unfolding digits
push_part n unit = if n == 0 then [] else decimal n ++ unit ∷ []

-- while (milliseconds.length < 3) milliseconds = '0' + milliseconds
abbrev pub pad : ℕ → List ℕ → List ℕ
pad zero text = text
pad (suc fuel) text = if ltb (length text) 3 then pad fuel (b'0' ∷ text) else text

unfoldable pub fraction : ℕ → List ℕ
unfolding digits
fraction milliseconds = if milliseconds == 0 then [] else b'.' ∷ pad 3 (decimal milliseconds)

unfoldable pub seconds_part : ℕ → ℕ → List ℕ
unfolding digits fraction
seconds_part seconds milliseconds =
    if seconds == 0 && milliseconds == 0
    then []
    else decimal seconds ++ (fraction milliseconds ++ b'S' ∷ [])

unfoldable pub time_part : ℕ → ℕ → ℕ → ℕ → List ℕ
unfolding push_part seconds_part
time_part hours minutes seconds milliseconds =
    if hours == 0 && minutes == 0 && seconds == 0 && milliseconds == 0
    then []
    else b'T' ∷ push_part hours b'H'
      ++ (push_part minutes b'M' ++ seconds_part seconds milliseconds)

unfoldable pub iso8601duration : ℕ → List ℕ
unfolding push_part time_part
iso8601duration milliseconds =
    let offset = milliseconds / 1000 in
    let in_minutes = offset / 60 in
    let in_hours = in_minutes / 60 in
    if milliseconds == 0
    then b'P' ∷ b'0' ∷ b'D' ∷ []
    else b'P' ∷ push_part (in_hours / 24) b'D'
      ++ time_part (in_hours % 24) (in_minutes % 60) (offset % 60) (milliseconds % 1000)
