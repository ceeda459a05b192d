-- ===== src/Intervals.antt =====
-- `calculateInterval` of api/src/utils.ts with api/src/enums/Intervals.ts: the width of the buckets of a
-- series, from its period in milliseconds. A negative period, which no caller passes, counts as 0.
pub mod Bounds
mod Tests
use dashscan.Prelude.{
  ℕ, suc, ◌+◌, ◌-◌, ◌*◌, ◌/◌, Bool, true, false, ◌&&◌, String, List, [], ◌∷◌, ltb, leb, ◌==◌,
  if◌then◌else◌,
}

-- The keys of the enumeration in their order, with their milliseconds.
abbrev pub intervals : List (String × ℕ)
intervals =
    ("PT5M", 300000)
    ∷ ("PT30M", 1800000)
    ∷ ("PT1H", 3600000)
    ∷ ("PT2H", 7200000)
    ∷ ("PT6H", 21600000)
    ∷ ("PT12H", 43200000)
    ∷ ("PT14H", 50400000)
    ∷ ("P1D", 86400000)
    ∷ ("P1W", 604800000)
    ∷ ("P1M", 2419200000)
    ∷ ("P1Y", 29030400000)
    ∷ []

-- One call of the reducer. `parts < 4` and `parts <= 12` are compared without the division, and
-- `array.splice(11)` takes nothing from an array of 11.
unfoldable pub reduce_step : ℕ → ℕ → String × ℕ → String × ℕ → String × ℕ
reduce_step period index previous current =
    if ltb period (4 * current.1) && ltb 0 index
    then previous
    else if leb period (12 * current.1) && (index == 0)
    then current
    else current

unfoldable pub reduce_from : ℕ → ℕ → String × ℕ → List (String × ℕ) → String × ℕ
unfolding reduce_step
reduce_from period index previous [] = previous
reduce_from period index previous (current ∷ rest) =
    reduce_from period (suc index) (reduce_step period index previous current) rest

-- Without an initial value, reduce starts from the first key at index 1.
abbrev pub reduce : ℕ → List (String × ℕ) → String × ℕ
reduce period [] = ("", 0)
reduce period (first ∷ rest) = reduce_from period 1 first rest

-- The chosen key, with `Intervals[key]`.
unfoldable pub calculate_interval : ℕ → String × ℕ
unfolding reduce_from
calculate_interval period = reduce period intervals

-- Math.ceil(period / count / 1000) * 1000
unfoldable pub interval_in_ms : ℕ → ℕ → ℕ
interval_in_ms period count = (period + (count * 1000 - 1)) / (count * 1000) * 1000
