-- ===== src/Handlers/Widths.antt =====
-- The two forms of the width that the DAO gets.
use dashscan.Prelude.{
  ℕ, ◌+◌, ◌%◌, ◌-◌, ◌*◌, ◌≤◌, ◌<◌, ◌≡◌, ap, ◌∙◌, Bool, false, some, List, arith, get_or_else,
}
use dashscan.Intervals.{interval_in_ms}
use dashscan.Intervals.Bounds.{interval_in_ms_ge, interval_in_ms_lt, interval_in_ms-seconds}
use dashscan.Durations.{iso8601duration}
use dashscan.Durations.Reader.{duration_in_ms}
use dashscan.Durations.RoundTrip.{duration_in_ms-iso8601duration}
use dashscan.Governance.Controller.{send}
use dashscan.Handlers.{
  SeriesQuery, duration, query_start, query_end, choose_interval, series_call,
  get_transaction_count_series,
}

pub series_call-sends :
    (now : ℕ) (q : SeriesQuery) (running_total : Bool)
    → query_start now q ≤ query_end now q
    → series_call now q running_total
      ≡ send (record {
        start = query_start now q;
        end = query_end now q;
        interval = (choose_interval (query_end now q - query_start now q) q.intervals_count).0;
        width_in_ms = (choose_interval (query_end now q - query_start now q) q.intervals_count).1;
        running_total = running_total;
      })
unfolding series_call
series_call-sends now q running_total h = ground arith

-- For a window that does not end before it starts and a count above 0, the DAO is called with the window and
-- an ISO 8601 duration of the very milliseconds it is called with, which are the fewest whole seconds that
-- cover the window when taken as often as the count says: a second less would not.
pub get_transaction_count_series-reads :
    (now count : ℕ) (q : SeriesQuery)
    → query_start now q ≤ query_end now q
    → q.intervals_count ≡ some count
    → 0 < count
    → (text : List ℕ) × (width : ℕ) × (get_transaction_count_series now q
        ≡ send (record {
          start = query_start now q;
          end = query_end now q;
          interval = duration text;
          width_in_ms = width;
          running_total = get_or_else q.running_total false;
        }))
      × (duration_in_ms text ≡ some width)
      × (width % 1000 ≡ 0)
      × (query_end now q - query_start now q ≤ width * count)
      × (width * count < query_end now q - query_start now q + 1000 * count)
unfolding get_transaction_count_series choose_interval
get_transaction_count_series-reads now count q forth given positive =
    let period = query_end now q - query_start now q in
    let width = interval_in_ms period count in
    (
      iso8601duration width,
      width,
      series_call-sends now q (get_or_else q.running_total false) forth
          ∙ ap
              (λ o. send (record {
                start = query_start now q;
                end = query_end now q;
                interval = (choose_interval period o).0;
                width_in_ms = (choose_interval period o).1;
                running_total = get_or_else q.running_total false;
              }))
              given,
      duration_in_ms-iso8601duration width,
      interval_in_ms-seconds period count,
      interval_in_ms_ge period count positive,
      interval_in_ms_lt period count positive,
    )
