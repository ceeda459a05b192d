-- ===== src/Handlers/Tests.antt =====
-- A series of two intervals.
use dashscan.Prelude.{
  ℕ, ◌+◌, ◌%◌, ◌<◌, ◌-◌, ◌*◌, ◌≤◌, ◌≡◌, refl, false, none, some, List, get_or_else, arith,
}
use dashscan.Durations.Reader.{duration_in_ms}
use dashscan.Governance.Controller.{send, error}
use dashscan.Handlers.{
  date, null_date, get_address_balance_series, SeriesQuery, duration, query_start, query_end,
  get_transaction_count_series,
}
use dashscan.Handlers.Widths.{get_transaction_count_series-reads}

abbrev query : SeriesQuery
query = record {
  timestamp_start = date 1000;
  timestamp_end = date 8500;
  intervals_count = some 2;
  running_total = none;
}

get_transaction_count_series-reads_example :
    (text : List ℕ) × (width : ℕ) × (get_transaction_count_series 9000 query
      ≡ send (record {
        start = query_start 9000 query;
        end = query_end 9000 query;
        interval = duration text;
        width_in_ms = width;
        running_total = get_or_else query.running_total false;
      }))
    × (duration_in_ms text ≡ some width)
    × (width % 1000 ≡ 0)
    × (query_end 9000 query - query_start 9000 query ≤ width * 2)
    × (width * 2 < query_end 9000 query - query_start 9000 query + 1000 * 2)
get_transaction_count_series-reads_example =
    get_transaction_count_series-reads 9000 2 query (omega arith) refl (omega arith)

null_start :
    get_address_balance_series 9000 (record query { timestamp_start = null_date })
    ≡ error 400 "start and end must be set"
unfolding get_address_balance_series
null_start = refl
