-- ===== src/Addresses/Activity.antt =====
-- The windows of `getAddressesActivity` of api/src/dao/AddressesDAO.ts: which stretch of time is counted
-- live, which by the daily rollup and which by the weekly one. Times are milliseconds since 1970.
pub mod Cover
use dashscan.Prelude.{
  ℕ, ◌+◌, ◌-◌, ◌*◌, ◌/◌, ◌%◌, Bool, true, false, ◌&&◌, not, List, [], ◌∷◌, ◌++◌, ltb, leb, ◌==◌,
  if◌then◌else◌,
}
use dashscan.Prelude.Windows.{Window, pushed}

abbrev pub ms_per_day : ℕ
ms_per_day = 86400000

-- ADDRESSES_ACTIVITY_LOW_PRECISION_AFTER and ADDRESSES_ACTIVITY_WEEKLY_AFTER
abbrev pub low_precision_after : ℕ
low_precision_after = 259200000

abbrev pub weekly_after : ℕ
weekly_after = 691200000

-- The parts of a request: slices read live, ranges of days, and ranges of weeks (one at most).
pub record Parts : Type 0 where
  pub live : List Window
  pub days : List Window
  pub weeks : List Window

-- Date.UTC(year, month, day) and Date.UTC(year, month, day + 1) of a time
abbrev pub day_start : ℕ → ℕ
day_start t = t / ms_per_day * ms_per_day

abbrev pub next_day : ℕ → ℕ
next_day t = day_start t + ms_per_day

-- getUTCDay: Sunday is 0, and the first of January 1970 was a Thursday.
abbrev pub get_utc_day : ℕ → ℕ
get_utc_day t = (t / ms_per_day + 4) % 7

abbrev pub starts_at_midnight : ℕ → Bool
starts_at_midnight start = next_day start - start == ms_per_day

abbrev pub day_lo : ℕ → ℕ
day_lo start = if starts_at_midnight start then start else next_day start

abbrev pub week_lo : ℕ → ℕ
week_lo start = day_lo start + (8 - get_utc_day (day_lo start)) % 7 * ms_per_day

-- In the first days of 1970 the source's value is below zero, and the test against `week_lo` fails for
-- it as for 0.
abbrev pub week_hi : ℕ → ℕ
week_hi end = day_start end - (get_utc_day (day_start end) + 6) % 7 * ms_per_day

abbrev pub is_short : ℕ → ℕ → Bool
is_short start end = leb (end - start) low_precision_after

abbrev pub use_weekly : ℕ → ℕ → Bool
use_weekly start end =
    not (is_short start end)
    && (ltb weekly_after (end - start) && ltb (week_lo start) (week_hi end))

abbrev pub live_windows : ℕ → ℕ → List Window
live_windows start end =
    if is_short start end
    then record { from = start; to = end } ∷ []
    else pushed (not (starts_at_midnight start)) start (next_day start - 1)
      ++ pushed (ltb (day_start end) end) (day_start end) end

abbrev pub day_windows : ℕ → ℕ → List Window
day_windows start end =
    if is_short start end
    then []
    else if use_weekly start end
    then pushed (ltb (day_lo start) (week_lo start)) (day_lo start) (week_lo start)
      ++ pushed (ltb (week_hi end) (day_start end)) (week_hi end) (day_start end)
    else pushed (ltb (day_lo start) (day_start end)) (day_lo start) (day_start end)

-- For `start` not after `end`, which the controller checks.
unfoldable pub activity_parts : ℕ → ℕ → Parts
activity_parts start end = record {
  live = live_windows start end;
  days = day_windows start end;
  weeks = pushed (use_weekly start end) (week_lo start) (week_hi end);
}
