-- ===== src/Durations/Tests.antt =====
-- Durations, at small numbers of milliseconds.
use dashscan.Prelude.{◌≡◌, refl, none, some, [], ◌∷◌}
use dashscan.Durations.{iso8601duration}
use dashscan.Durations.Reader.{run, duration_in_ms}
use dashscan.Durations.RoundTrip.{duration_in_ms-iso8601duration}

-- PT1M5.070S
minute :
    iso8601duration 65070 ≡ b'P' ∷ b'T' ∷ b'1' ∷ b'M' ∷ b'5' ∷ b'.' ∷ b'0' ∷ b'7' ∷ b'0' ∷ b'S' ∷ []
unfolding iso8601duration
minute = refl

-- PT5.70S are 5700 milliseconds, P5M has its minutes among the days, P1DT has no times after its T, and
-- PT5M3H has its hours late.
two_digits : duration_in_ms (b'P' ∷ b'T' ∷ b'5' ∷ b'.' ∷ b'7' ∷ b'0' ∷ b'S' ∷ []) ≡ some 5700
unfolding duration_in_ms run
two_digits = refl

no_times : duration_in_ms (b'P' ∷ b'5' ∷ b'M' ∷ []) ≡ none
unfolding duration_in_ms run
no_times = refl

nothing_after_t : duration_in_ms (b'P' ∷ b'1' ∷ b'D' ∷ b'T' ∷ []) ≡ none
unfolding duration_in_ms run
nothing_after_t = refl

late_hours : duration_in_ms (b'P' ∷ b'T' ∷ b'5' ∷ b'M' ∷ b'3' ∷ b'H' ∷ []) ≡ none
unfolding duration_in_ms run
late_hours = refl

duration_in_ms-iso8601duration_example : duration_in_ms (iso8601duration 65070) ≡ some 65070
duration_in_ms-iso8601duration_example = duration_in_ms-iso8601duration 65070
