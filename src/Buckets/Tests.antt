-- ===== src/Buckets/Tests.antt =====
-- Tests and witnesses of the series: four blocks around a window of 7500 milliseconds in two steps.
use dashscan.Prelude.{ℕ, ◌*◌, ◌≡◌, refl, true, false, none, some, List, [], ◌∷◌, get_or_else, ◌/◌}
use dashscan.Durations.Reader.{duration_in_ms}
use dashscan.Handlers.{date, Interval, key, duration, SeriesQuery}
use dashscan.Buckets.{
  BlockCount, ranges, running_sums, transaction_count_series, tx_count_stats, average_in,
}

abbrev query : SeriesQuery
query = record {
  timestamp_start = date 1000;
  timestamp_end = date 9000;
  intervals_count = some 2;
  running_total = some true;
}

abbrev block : ℕ → ℕ → BlockCount
block timestamp tx_count = record { timestamp = timestamp; tx_count = tx_count }

abbrev chain : List BlockCount
chain = block 1000 1 ∷ block 2000 3 ∷ block 5000 4 ∷ block 6000 5 ∷ block 9500 7 ∷ []

-- What the database reads of an interval: a key stands for a day here.
read_interval : Interval → ℕ
read_interval (key k) = 86400000
read_interval (duration text) = get_or_else (duration_in_ms text) 0

abbrev mean : ℕ → ℕ → ℕ
mean sum n = 100 * sum / n

counts :
    transaction_count_series 1000 9000 4000 4000 false chain
    ≡ some (record { timestamp = 1000; value = 7 } ∷ record { timestamp = 5000; value = 5 } ∷ [])
unfolding transaction_count_series ranges
counts = refl

totals :
    transaction_count_series 1000 9000 4000 4000 true chain
    ≡ some (record { timestamp = 1000; value = 7 } ∷ record { timestamp = 5000; value = 12 } ∷ [])
unfolding transaction_count_series ranges running_sums
totals = refl

averages :
    tx_count_stats 0 mean 1000 9000 4000 4000 chain
    ≡ some
        (record { timestamp = 1000; value = 350 } ∷ record { timestamp = 5000; value = 500 } ∷ [])
unfolding tx_count_stats ranges average_in
averages = refl

no_step : transaction_count_series 1000 1000 0 0 false chain ≡ none
unfolding transaction_count_series ranges
no_step = refl
