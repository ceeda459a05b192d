-- ===== src/Addresses/Activity/Cover.antt =====
-- The windows cover the time that was asked for, each moment once.
use dashscan.Prelude.{
  ℕ, ◌+◌, ◌-◌, ◌*◌, ◌%◌, ◌≤◌, ◌<◌, ◌≡◌, refl, ap, ◌∙◌, inl, inr, Bool, true, false, ◌&&◌, not, [],
  ◌∷◌, ◌++◌, ltb, ◌==◌, if◌then◌else◌, Bool-cases, sum_of, All, arith, tests, ltb→lt,
}
use dashscan.Prelude.Windows.{
  Window, pushed, has_closed, has_open, between, between-join, pushed-open, sum_of-append,
  All-append, pushed-All,
}
use dashscan.Addresses.Activity.{
  ms_per_day, Parts, activity_parts, get_utc_day, starts_at_midnight, is_short, use_weekly, day_lo,
  week_lo, week_hi, day_start, next_day, live_windows, day_windows, weekly_after,
}

-- How many of the parts have a moment.
abbrev pub times_covered : ℕ → Parts → ℕ
times_covered t parts =
    sum_of (has_closed t) parts.live
    + sum_of (has_open t) parts.days
    + sum_of (has_open t) parts.weeks

abbrev pub IsWholeDays : Window → Type 0
IsWholeDays w = (w.from % ms_per_day ≡ 0) × (w.to % ms_per_day ≡ 0)

-- A midnight that begins a Monday.
abbrev pub IsMonday : ℕ → Type 0
IsMonday t = (t % ms_per_day ≡ 0) × (get_utc_day t ≡ 1)

abbrev pub IsWholeWeeks : Window → Type 0
IsWholeWeeks w = IsMonday w.from × IsMonday w.to

left_true : (a b : Bool) → (a && b) ≡ true → a ≡ true
left_true true b h = refl
left_true false b h = h

both_true : (a b : Bool) → (a && b) ≡ true → b ≡ true
both_true true b h = h
both_true false b h = absurd (cc h)

-- Where the covered time ends: after `end`, but for a long period that ends at a midnight, at `end`.
abbrev pub cover_end : ℕ → ℕ → ℕ
cover_end start end = if not (is_short start end) && day_start end == end then end else end + 1

-- The first Monday from a midnight on, and the last one until it.
IsMonday-from :
    (day : ℕ) → day % ms_per_day ≡ 0 → IsMonday (day + (8 - get_utc_day day) % 7 * ms_per_day)
IsMonday-from day h = omega arith

IsMonday-until :
    (day : ℕ)
    → day % ms_per_day ≡ 0
    → 6 * ms_per_day ≤ day
    → IsMonday (day - (get_utc_day day + 6) % 7 * ms_per_day)
IsMonday-until day h k = omega arith

module _ (start end : ℕ) (ordered : start ≤ end) (long : is_short start end ≡ false) where
  day_lo_le : day_lo start ≤ day_start end
  day_lo_le = ground arith

  le-day_lo : start ≤ day_lo start
  le-day_lo = ground arith

  day_lo-midnight : day_lo start % ms_per_day ≡ 0
  day_lo-midnight = ground arith

  live_start :
      (t : ℕ)
      → sum_of (has_closed t) (pushed (not (starts_at_midnight start)) start (next_day start - 1))
        ≡ between start (day_lo start) t
  live_start t = ground arith

  live_end :
      (t : ℕ)
      → sum_of (has_closed t) (pushed (ltb (day_start end) end) (day_start end) end)
        ≡ between (day_start end) (cover_end start end) t
  live_end t = ground arith

  day_lo-le-week_lo : day_lo start ≤ week_lo start
  day_lo-le-week_lo = omega arith

  week_hi-le : week_hi end ≤ day_start end
  week_hi-le = omega arith

  weeks-ordered : use_weekly start end ≡ true → week_lo start ≤ week_hi end
  weeks-ordered h =
      let h' = both_true (not (is_short start end)) _ h in
      omega (
        tests,
        ltb→lt (week_lo start) (week_hi end) (both_true (ltb weekly_after (end - start)) _ h'),
      )

  week_once :
      (t : ℕ)
      → sum_of (has_open t) (record { from = week_lo start; to = week_hi end } ∷ [])
        ≡ between (week_lo start) (week_hi end) t
  week_once t = omega arith

  rollups :
      (t : ℕ)
      → sum_of (has_open t) (day_windows start end)
          + sum_of (has_open t) (pushed (use_weekly start end) (week_lo start) (week_hi end))
        ≡ between (day_lo start) (day_start end) t
  rollups t = elim (Bool-cases (use_weekly start end)) [
    | inl weekly ↦
        let some_weeks = weeks-ordered weekly in
        rw (weekly, long)
          (omega (
            arith,
            sum_of-append (has_open t)
                (pushed (ltb (day_lo start) (week_lo start)) (day_lo start) (week_lo start))
                (pushed (ltb (week_hi end) (day_start end)) (week_hi end) (day_start end)),
            pushed-open (day_lo start) (week_lo start) t,
            pushed-open (week_hi end) (day_start end) t,
            week_once t,
            between-join (day_lo start) (week_lo start) (week_hi end) t day_lo-le-week_lo
                some_weeks,
            between-join (day_lo start) (week_hi end) (day_start end) t
                (omega (arith, day_lo-le-week_lo, some_weeks)) week_hi-le,
          ))
    | inr daily ↦ rw (daily, long) (omega (arith, pushed-open (day_lo start) (day_start end) t))
  ]

  two_slices :
      live_windows start end
      ≡ pushed (not (starts_at_midnight start)) start (next_day start - 1)
        ++ pushed (ltb (day_start end) end) (day_start end) end
  two_slices = rw long

  cover :
      (t : ℕ) → times_covered t (activity_parts start end) ≡ between start (cover_end start end) t
  unfolding activity_parts
  cover t =
      let slices : sum_of (has_closed t) (live_windows start end)
          ≡ between start (day_lo start) t + between (day_start end) (cover_end start end) t =
        ap (sum_of (has_closed t)) two_slices
        ∙ sum_of-append (has_closed t)
            (pushed (not (starts_at_midnight start)) start (next_day start - 1))
            (pushed (ltb (day_start end) end) (day_start end) end)
        ∙ omega (arith, live_start t, live_end t) in
      let until : day_start end ≤ cover_end start end = ground arith in
      omega (
        arith,
        slices,
        rollups t,
        between-join start (day_lo start) (day_start end) t le-day_lo day_lo_le,
        between-join start (day_start end) (cover_end start end) t
            (omega (arith, le-day_lo, day_lo_le)) until,
      )

  week_lo-IsMonday : IsMonday (week_lo start)
  week_lo-IsMonday = IsMonday-from (day_lo start) day_lo-midnight

  week_hi-IsMonday : use_weekly start end ≡ true → IsMonday (week_hi end)
  week_hi-IsMonday h =
      let h' = both_true (not (is_short start end)) _ h in
      let days : weekly_after < end - start =
        ltb→lt weekly_after (end - start) (left_true (ltb weekly_after (end - start)) _ h') in
      IsMonday-until (day_start end) (omega arith) (omega (arith, days))

  days-whole : All IsWholeDays (day_windows start end)
  days-whole = elim (Bool-cases (use_weekly start end)) [
    | inl weekly ↦
        let lo = week_lo-IsMonday in
        let hi = week_hi-IsMonday weekly in
        rw (weekly, long)
          (All-append IsWholeDays
            (pushed (ltb (day_lo start) (week_lo start)) (day_lo start) (week_lo start))
            (pushed (ltb (week_hi end) (day_start end)) (week_hi end) (day_start end))
            (pushed-All IsWholeDays _ (day_lo start) (week_lo start) (day_lo-midnight, lo.0))
            (pushed-All IsWholeDays _ (week_hi end) (day_start end) (hi.0, omega arith)))
    | inr daily ↦
        rw (daily, long)
          (pushed-All IsWholeDays _ (day_lo start) (day_start end) (day_lo-midnight, omega arith))
  ]

  weeks-whole : All IsWholeWeeks (pushed (use_weekly start end) (week_lo start) (week_hi end))
  weeks-whole = elim (Bool-cases (use_weekly start end)) [
    | inl weekly ↦ rw weekly ((week_lo-IsMonday, week_hi-IsMonday weekly), tt)
    | inr daily ↦ rw daily tt
  ]

-- Each moment from `start` to `end` is in one of the parts and in only one, and no other moment is in
-- any, but that a period of more than three days that ends at a midnight does without that last moment;
-- and the rollups are read by whole days and by whole weeks from Monday to Monday.
pub activity_parts-cover :
    (start end : ℕ)
    → start ≤ end
    → ((t : ℕ) → times_covered t (activity_parts start end) ≡ between start (cover_end start end) t)
      × All IsWholeDays (activity_parts start end).days
      × All IsWholeWeeks (activity_parts start end).weeks
unfolding activity_parts
activity_parts-cover start end ordered = elim (Bool-cases (is_short start end)) [
  | inl short ↦ rw short (λ t. ground arith, tt, tt)
  | inr long ↦ (
    cover start end ordered long,
    days-whole start end ordered long,
    weeks-whole start end ordered long,
  )
]
