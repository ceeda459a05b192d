-- ===== src/Durations/Reader.antt =====
-- A reader of ISO 8601 durations: P, days, and after a T hours, minutes and seconds, in this order, with the
-- milliseconds in up to three digits after the point. A text that is none has no milliseconds.
use dashscan.Prelude.{
  ℕ, ◌+◌, ◌-◌, ◌*◌, ◌/◌, ◌||◌, Bool, Option, none, some, true, false, ◌&&◌, List, [], ◌∷◌, leb, ltb,
  ◌==◌, if◌then◌else◌,
}

-- Where the text is: before the P, among the days, after the T, after the point of the seconds, after the
-- seconds, or where no duration goes on.
pub data Place : Type 0 where
  start dates times point seconds_read failed : Place

-- The milliseconds so far, the number that is being read, whether it has a digit, and what the last unit was
-- worth, which a later one must not reach, or, after the point, what the next digit is worth.
pub record Reading : Type 0 where
  pub place : Place
  pub total : ℕ
  pub current : ℕ
  pub pending : Bool
  pub worth : ℕ

abbrev pub at : Place → ℕ → ℕ → Bool → ℕ → Reading
at place total current pending worth = record {
  place = place;
  total = total;
  current = current;
  pending = pending;
  worth = worth;
}

abbrev pub fail : Reading
fail = at failed 0 0 false 0

-- What stands for the unit before the first one, and before the first one of the times.
abbrev pub no_date : ℕ
no_date = 86400001

abbrev pub no_time : ℕ
no_time = 86400000

-- A unit ends a number, which has a digit.
abbrev pub counted : Place → ℕ → Reading → Reading
counted next unit st =
    if st.pending && ltb unit st.worth
    then at next (st.total + st.current * unit) 0 false unit
    else fail

abbrev pub is_digit : ℕ → Bool
is_digit c = leb b'0' c && leb c b'9'

-- A digit of a whole number, and one after the point, of which a millisecond is the third and last.
abbrev pub digit : ℕ → Reading → Reading
digit d st = record st { current = st.current * 10 + d; pending = true }

abbrev pub decimal_place : ℕ → Reading → Reading
decimal_place d st =
    if ltb 0 st.worth
    then record st { total = st.total + d * st.worth; pending = true; worth = st.worth / 10 }
    else fail

abbrev pub step : Reading → ℕ → Reading
step st c = elim st.place [
  | start ↦ if c == b'P' then record st { place = dates } else fail
  | dates ↦
      if is_digit c
      then digit (c - b'0') st
      else if c == b'D'
      then counted dates 86400000 st
      else if c == b'T'
      then (if st.pending then fail else record st { place = times; worth = no_time })
      else fail
  | times ↦
      if is_digit c
      then digit (c - b'0') st
      else if c == b'H'
      then counted times 3600000 st
      else if c == b'M'
      then counted times 60000 st
      else if c == b'S'
      then counted seconds_read 1000 st
      else if c == b'.'
      then record (counted point 1000 st) { worth = 100 }
      else fail
  | point ↦
      if is_digit c
      then decimal_place (c - b'0') st
      else if c == b'S'
      then (if st.pending then record st { place = seconds_read } else fail)
      else fail
  | seconds_read ↦ fail
  | failed ↦ fail
]

unfoldable pub run : Reading → List ℕ → Reading
run st [] = st
run st (c ∷ cs) = run (step st c) cs

-- The milliseconds, if the text is a whole duration.
abbrev pub finished : Reading → Option ℕ
finished st = elim st.place [
  | start ↦ none
  | dates ↦ if st.pending || st.worth == no_date then none else some st.total
  | times ↦ if st.pending || st.worth == no_time then none else some st.total
  | point ↦ none
  | seconds_read ↦ some st.total
  | failed ↦ none
]

unfoldable pub duration_in_ms : List ℕ → Option ℕ
unfolding run
duration_in_ms text = finished (run (at start 0 0 false no_date) text)
