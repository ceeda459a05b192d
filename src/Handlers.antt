-- ===== src/Handlers.antt =====
-- The handlers of series in api/src/controllers: `getTransactionCountSeries`, `getTxCountStats` and
-- `getAddressBalanceSeries`, up to the call of the DAO. Dates are what their schema has checked, in
-- milliseconds; a count, which the schema lets be from 2 to 100, is whole. `getTxCountStats` puts the text
-- of its error under another key than the others.
pub mod Widths
mod Tests
use dashscan.Prelude.{
  ℕ, zero, suc, ◌+◌, ◌-◌, Bool, true, false, ◌||◌, String, Option, none, some, List, ltb,
  if◌then◌else◌, get_or_else,
}
use dashscan.Intervals.{calculate_interval, interval_in_ms}
use dashscan.Durations.{iso8601duration}
use dashscan.Governance.Controller.{Response, error, send}

-- A timestamp of the query, in milliseconds; the schema lets it be null.
pub data Timestamp : Type 0 where
  absent null_date : Timestamp
  date : ℕ → Timestamp

pub record SeriesQuery : Type 0 where
  pub timestamp_start : Timestamp
  pub timestamp_end : Timestamp
  pub intervals_count : Option ℕ
  pub running_total : Option Bool

-- The interval that the database gets: a key of the enumeration, or a duration.
pub data Interval : Type 0 where
  key : String → Interval
  duration : List ℕ → Interval

pub record SeriesCall : Type 0 where
  pub start : ℕ
  pub end : ℕ
  pub interval : Interval
  pub width_in_ms : ℕ
  pub running_total : Bool

-- Only a missing timestamp gets its default; new Date(null) is the first of January 1970.
abbrev pub date_or : ℕ → Timestamp → ℕ
date_or default absent = default
date_or default null_date = 0
date_or default (date ms) = ms

abbrev pub query_start : ℕ → SeriesQuery → ℕ
query_start now q = date_or (now - 3600000) q.timestamp_start

abbrev pub query_end : ℕ → SeriesQuery → ℕ
query_end now q = date_or now q.timestamp_end

-- The interval and its milliseconds: without a count, `intervalInMs` is NaN.
unfoldable pub choose_interval : ℕ → Option ℕ → Interval × ℕ
unfolding calculate_interval interval_in_ms iso8601duration
choose_interval period none = let (name, width) = calculate_interval period in (key name, width)
choose_interval period (some count) =
    let width = interval_in_ms period count in (duration (iso8601duration width), width)

unfoldable pub series_call : ℕ → SeriesQuery → Bool → Response SeriesCall
unfolding choose_interval
series_call now q running_total =
    let start = query_start now q in
    let end = query_end now q in
    let (interval, width) = choose_interval (end - start) q.intervals_count in
    if ltb end start
    then error 400 "start timestamp cannot be more than end timestamp"
    else send (record {
      start = start;
      end = end;
      interval = interval;
      width_in_ms = width;
      running_total = running_total;
    })

unfoldable pub get_transaction_count_series : ℕ → SeriesQuery → Response SeriesCall
unfolding series_call
get_transaction_count_series now q = series_call now q (get_or_else q.running_total false)

unfoldable pub get_tx_count_stats : ℕ → SeriesQuery → Response SeriesCall
unfolding series_call
get_tx_count_stats now q = series_call now q false

abbrev pub is_null : Timestamp → Bool
is_null absent = false
is_null null_date = true
is_null (date ms) = false

-- `!start || !end` holds for null alone: a text of a date is not empty, and the defaults are not 0.
unfoldable pub get_address_balance_series : ℕ → SeriesQuery → Response SeriesCall
unfolding series_call
get_address_balance_series now q =
    if is_null q.timestamp_start || is_null q.timestamp_end
    then error 400 "start and end must be set"
    else series_call now q false
