-- ===== src/Addresses/Tests.antt =====
-- Tests and witnesses of the windows: twenty days from a Friday noon on.
use dashscan.Prelude.{ℕ, ◌+◌, ◌-◌, ◌*◌, ◌≡◌, refl, [], ◌∷◌, All, arith}
use dashscan.Prelude.Windows.{between}
use dashscan.Addresses.Activity.{ms_per_day, activity_parts}
use dashscan.Addresses.Activity.Cover.{
  times_covered, cover_end, IsWholeDays, IsWholeWeeks, activity_parts-cover,
}

abbrev friday_noon : ℕ
friday_noon = ms_per_day + 43200000

abbrev later : ℕ
later = 21 * ms_per_day + 43200000

-- Live until Saturday, by days until Monday, by weeks until the third Monday, and by days again.
parts_of_twenty_days : activity_parts friday_noon later ≡ record {
  live =
      record { from = friday_noon; to = 2 * ms_per_day - 1 }
      ∷ record { from = 21 * ms_per_day; to = later }
      ∷ [];
  days =
      record { from = 2 * ms_per_day; to = 4 * ms_per_day }
      ∷ record { from = 18 * ms_per_day; to = 21 * ms_per_day }
      ∷ [];
  weeks = record { from = 4 * ms_per_day; to = 18 * ms_per_day } ∷ [];
}
unfolding activity_parts
parts_of_twenty_days = refl

activity_parts-cover_example :
    ((t : ℕ)
      → times_covered t (activity_parts friday_noon later)
        ≡ between friday_noon (cover_end friday_noon later) t)
    × All IsWholeDays (activity_parts friday_noon later).days
    × All IsWholeWeeks (activity_parts friday_noon later).weeks
activity_parts-cover_example = activity_parts-cover friday_noon later (omega arith)
