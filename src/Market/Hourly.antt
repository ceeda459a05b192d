-- ===== src/Market/Hourly.antt =====
-- `compactToHourly` of api/src/services/MarketService.ts: the last value of each hour, by hour.
-- Timestamps are whole milliseconds; a value may be of any type.
use dashscan.Prelude.{
  ℕ, suc, ◌*◌, ◌/◌, ◌%◌, ◌≤◌, ◌≡◌, refl, ap, ◌∙◌, Option, none, some, List, [], ◌∷◌, arith, ◌==◌,
  leb, if◌then◌else◌, map,
}

pub record DataPoint (V : Type 0) : Type 0 where
  pub timestamp : ℕ
  pub value : V

-- Math.floor(timestampMs / 1000 / 3600) * 3600, in seconds
unfoldable pub hour_of : ℕ → ℕ
hour_of timestamp_ms = timestamp_ms / 3600000 * 3600

module _ {V : Type 0} where
  -- byHour.set(hourTs, value)
  unfoldable pub set_hour : ℕ → V → List (ℕ × V) → List (ℕ × V)
  set_hour h v [] = (h, v) ∷ []
  set_hour h v ((g, u) ∷ m) =
      let others = set_hour h v m in if g == h then (h, v) ∷ m else (g, u) ∷ others

  unfoldable pub by_hour : List (ℕ × V) → List (ℕ × V) → List (ℕ × V)
  unfolding set_hour hour_of
  by_hour m [] = m
  by_hour m ((t, v) ∷ points) = by_hour (set_hour (hour_of t) v m) points

  -- sort(([a], [b]) => a - b), which is stable
  unfoldable pub insert_sorted : ℕ × V → List (ℕ × V) → List (ℕ × V)
  insert_sorted (h, v) [] = (h, v) ∷ []
  insert_sorted (h, v) ((g, u) ∷ m) =
      let later = insert_sorted (h, v) m in if leb h g then (h, v) ∷ (g, u) ∷ m else (g, u) ∷ later

  unfoldable pub sort_hours : List (ℕ × V) → List (ℕ × V)
  unfolding insert_sorted
  sort_hours [] = []
  sort_hours (e ∷ m) = insert_sorted e (sort_hours m)

  abbrev pub to_point : ℕ × V → DataPoint V
  to_point (h, v) = record { timestamp = h; value = v }

  unfoldable pub compact_to_hourly : List (ℕ × V) → List (DataPoint V)
  unfolding by_hour sort_hours
  compact_to_hourly points = map to_point (sort_hours (by_hour [] points))

  -- The last value among the points of an hour since 1970.
  abbrev pub last_of_hour : ℕ → List (ℕ × V) → Option V → Option V
  last_of_hour hour [] last = last
  last_of_hour hour ((t, v) ∷ points) last =
      last_of_hour hour points (if t / 3600000 == hour then some v else last)

  -- The same by the second that the hour begins with.
  unfoldable pub last_in : ℕ → List (ℕ × V) → Option V → Option V
  unfolding hour_of
  last_in h [] last = last
  last_in h ((t, v) ∷ points) last = last_in h points (if hour_of t == h then some v else last)

  -- The value of an hour in a list of entries, and in the answer.
  unfoldable pub at_hour : ℕ → List (ℕ × V) → Option V
  at_hour h [] = none
  at_hour h ((g, v) ∷ m) = if g == h then some v else at_hour h m

  unfoldable pub value_at : ℕ → List (DataPoint V) → Option V
  value_at h [] = none
  value_at h (d ∷ ds) = if d.timestamp == h then some d.value else value_at h ds

  -- Strictly ascending timestamps from `low` on, each the start of an hour.
  abbrev pub IsHourly : ℕ → List (DataPoint V) → Type 0
  IsHourly low [] = Unit
  IsHourly low (d ∷ ds) =
      (low ≤ d.timestamp) × (d.timestamp % 3600 ≡ 0) × IsHourly (suc d.timestamp) ds

  at_hour-set_hour :
      (h k : ℕ) (v : V) (m : List (ℕ × V))
      → at_hour k (set_hour h v m) ≡ (if h == k then some v else at_hour k m)
  unfolding at_hour set_hour
  at_hour-set_hour h k v [] = refl
  at_hour-set_hour h k v ((g, u) ∷ m) = ground (arith, at_hour-set_hour h k v m)

  at_hour-by_hour :
      (k : ℕ) (m points : List (ℕ × V))
      → at_hour k (by_hour m points) ≡ last_in k points (at_hour k m)
  unfolding by_hour last_in
  at_hour-by_hour k m [] = refl
  at_hour-by_hour k m ((t, v) ∷ points) =
      at_hour-by_hour k (set_hour (hour_of t) v m) points
      ∙ ap (last_in k points) (at_hour-set_hour (hour_of t) k v m)

  -- No hour stands twice.
  abbrev IsOnce : List (ℕ × V) → Type 0
  IsOnce [] = Unit
  IsOnce ((h, v) ∷ m) = (at_hour h m ≡ none) × IsOnce m

  set_hour-IsOnce : (h : ℕ) (v : V) (m : List (ℕ × V)) → IsOnce m → IsOnce (set_hour h v m)
  unfolding set_hour at_hour
  set_hour-IsOnce h v [] o = (refl, tt)
  set_hour-IsOnce h v ((g, u) ∷ m) o =
      ground (arith, set_hour-IsOnce h v m o.1, at_hour-set_hour h g v m)

  by_hour-IsOnce : (m points : List (ℕ × V)) → IsOnce m → IsOnce (by_hour m points)
  unfolding by_hour
  by_hour-IsOnce m [] o = o
  by_hour-IsOnce m ((t, v) ∷ points) o =
      by_hour-IsOnce (set_hour (hour_of t) v m) points (set_hour-IsOnce (hour_of t) v m o)

  at_hour-insert_sorted :
      (h k : ℕ) (v : V) (m : List (ℕ × V))
      → at_hour h m ≡ none
      → at_hour k (insert_sorted (h, v) m) ≡ (if h == k then some v else at_hour k m)
  unfolding at_hour insert_sorted
  at_hour-insert_sorted h k v [] o = refl
  at_hour-insert_sorted h k v ((g, u) ∷ m) o = ground (arith, at_hour-insert_sorted h k v m)

  at_hour-sort_hours :
      (k : ℕ) (m : List (ℕ × V)) → IsOnce m → at_hour k (sort_hours m) ≡ at_hour k m
  unfolding sort_hours at_hour
  at_hour-sort_hours k [] o = refl
  at_hour-sort_hours k ((h, v) ∷ m) o =
      at_hour-insert_sorted h k v (sort_hours m) (at_hour-sort_hours h m o.1 ∙ o.0)
      ∙ ap (λ o. if h == k then some v else o) (at_hour-sort_hours k m o.1)

  abbrev IsFrom : ℕ → List (ℕ × V) → Type 0
  IsFrom low [] = Unit
  IsFrom low ((h, v) ∷ m) = (low ≤ h) × IsFrom (suc h) m

  insert_sorted-IsFrom :
      (h low : ℕ) (v : V) (m : List (ℕ × V))
      → at_hour h m ≡ none
      → low ≤ h
      → IsFrom low m
      → IsFrom low (insert_sorted (h, v) m)
  unfolding insert_sorted at_hour
  insert_sorted-IsFrom h low v [] o b f = (b, tt)
  insert_sorted-IsFrom h low v ((g, u) ∷ m) o b f =
      ground (arith, insert_sorted-IsFrom h (suc g) v m)

  sort_hours-IsFrom : (m : List (ℕ × V)) → IsOnce m → IsFrom 0 (sort_hours m)
  unfolding sort_hours
  sort_hours-IsFrom [] o = tt
  sort_hours-IsFrom ((h, v) ∷ m) o =
      insert_sorted-IsFrom h 0 v (sort_hours m) (at_hour-sort_hours h m o.1 ∙ o.0) (omega arith)
        (sort_hours-IsFrom m o.1)

  -- Each entry stands at the start of an hour.
  abbrev IsWhole : List (ℕ × V) → Type 0
  IsWhole [] = Unit
  IsWhole ((h, v) ∷ m) = (h % 3600 ≡ 0) × IsWhole m

  set_hour-IsWhole :
      (h : ℕ) (v : V) (m : List (ℕ × V)) → h % 3600 ≡ 0 → IsWhole m → IsWhole (set_hour h v m)
  unfolding set_hour
  set_hour-IsWhole h v [] e w = (e, tt)
  set_hour-IsWhole h v ((g, u) ∷ m) e w = ground (arith, set_hour-IsWhole h v m e w.1)

  by_hour-IsWhole : (m points : List (ℕ × V)) → IsWhole m → IsWhole (by_hour m points)
  unfolding by_hour hour_of
  by_hour-IsWhole m [] w = w
  by_hour-IsWhole m ((t, v) ∷ points) w =
      by_hour-IsWhole (set_hour (hour_of t) v m) points
        (set_hour-IsWhole (hour_of t) v m (omega arith) w)

  insert_sorted-IsWhole :
      (h : ℕ) (v : V) (m : List (ℕ × V))
      → h % 3600 ≡ 0
      → IsWhole m
      → IsWhole (insert_sorted (h, v) m)
  unfolding insert_sorted
  insert_sorted-IsWhole h v [] e w = (e, tt)
  insert_sorted-IsWhole h v ((g, u) ∷ m) e w = ground (arith, insert_sorted-IsWhole h v m e w.1)

  sort_hours-IsWhole : (m : List (ℕ × V)) → IsWhole m → IsWhole (sort_hours m)
  unfolding sort_hours
  sort_hours-IsWhole [] w = tt
  sort_hours-IsWhole ((h, v) ∷ m) w =
      insert_sorted-IsWhole h v (sort_hours m) w.0 (sort_hours-IsWhole m w.1)

  last_in-last_of_hour :
      (hour : ℕ) (points : List (ℕ × V)) (last : Option V)
      → last_in (hour * 3600) points last ≡ last_of_hour hour points last
  unfolding last_in hour_of
  last_in-last_of_hour hour [] last = refl
  last_in-last_of_hour hour ((t, v) ∷ points) last =
      let same : (t / 3600000 * 3600 == hour * 3600) ≡ (t / 3600000 == hour) = ground arith in
      ap (λ b. last_in (hour * 3600) points (if b then some v else last)) same
      ∙ last_in-last_of_hour hour points (if t / 3600000 == hour then some v else last)

  map-IsHourly :
      (low : ℕ) (m : List (ℕ × V)) → IsFrom low m → IsWhole m → IsHourly low (map to_point m)
  map-IsHourly low [] f w = tt
  map-IsHourly low ((h, v) ∷ m) f w = (f.0, w.0, map-IsHourly (suc h) m f.1 w.1)

  value_at-map : (k : ℕ) (m : List (ℕ × V)) → value_at k (map to_point m) ≡ at_hour k m
  unfolding value_at at_hour
  value_at-map k [] = refl
  value_at-map k ((h, v) ∷ m) = ap (λ o. if h == k then some v else o) (value_at-map k m)

  -- The answer has strictly ascending timestamps, each the second that an hour begins with, and at each hour
  -- the value of the last point in that hour, if there is one, and nothing otherwise; at any second it has the
  -- value of the last point whose hour begins with it.
  pub compact_to_hourly_lem :
      (points : List (ℕ × V))
      → IsHourly 0 (compact_to_hourly points)
        × ((hour : ℕ)
            → value_at (hour * 3600) (compact_to_hourly points) ≡ last_of_hour hour points none)
        × ((k : ℕ) → value_at k (compact_to_hourly points) ≡ last_in k points none)
  unfolding compact_to_hourly at_hour
  compact_to_hourly_lem points =
      let once = by_hour-IsOnce [] points tt in
      let at_second : (k : ℕ) → value_at k (compact_to_hourly points) ≡ last_in k points none =
        λ k. value_at-map k _ ∙ at_hour-sort_hours k _ once ∙ at_hour-by_hour k [] points in
      (
        map-IsHourly 0 _ (sort_hours-IsFrom _ once)
            (sort_hours-IsWhole _ (by_hour-IsWhole [] points tt)),
        λ hour. at_second (hour * 3600) ∙ last_in-last_of_hour hour points none,
        at_second,
      )
