-- ===== src/Buckets.antt =====
-- Series by ranges of time that the database makes: the ranges that `getTransactionCountSeries` of
-- api/src/dao/TransactionsDAO.ts and `getTxCountStats` of api/src/dao/BlocksDAO.ts share, what the two
-- make of the blocks in a range, and the rest of their handlers. What PostgreSQL reads of the text of an
-- interval is a parameter, and so is an average with its two decimals.
pub mod Ranges
pub mod Series
mod Tests
use mathlib.Core.Option
use dashscan.Prelude.{
  ℕ, zero, suc, ◌+◌, ◌-◌, Bool, Option, none, some, List, [], ◌∷◌, map, keep, leb, ltb, ◌==◌, ◌&&◌,
  if◌then◌else◌, sum_of, length,
}
use dashscan.Prelude.Windows.{Window}
use dashscan.Governance.Controller.{Response, error, send, throws}
use dashscan.Handlers.{
  Interval, SeriesQuery, SeriesCall, get_transaction_count_series, get_tx_count_stats,
}

-- A row of `blocks`, as far as the series read it.
pub record BlockCount : Type 0 where
  pub timestamp : ℕ
  pub tx_count : ℕ

pub record SeriesEntry (V : Type 0) : Type 0 where
  pub timestamp : ℕ
  pub value : V

-- generate_series(to, end, step), each time with the one before it, which LAG gives
unfoldable pub ranges_from : ℕ → ℕ → ℕ → ℕ → ℕ → List Window
ranges_from zero step end from to = []
ranges_from (suc fuel) step end from to =
    let rest = ranges_from fuel step end to (to + step) in
    if leb to end then record { from = from; to = to } ∷ rest else []

-- A step is at least a millisecond, and the first time is not before the start, so there are at most
-- `end - start + 1` of them. A step of 0 is an error of the database.
unfoldable pub ranges : ℕ → ℕ → ℕ → ℕ → Option (List Window)
unfolding ranges_from
ranges start end step width =
    if ltb 0 step
    then some (ranges_from (suc (end - start)) step end start (start + width))
    else none

-- timestamp > date_from AND timestamp <= date_to
abbrev pub in_range : Window → ℕ → Bool
in_range w t = ltb w.from t && leb t w.to

-- The rows of `buckets`. Its groups are the ranges: those begin at different times, as the width is above 0
-- where the step is.
abbrev pub buckets : {V : Type 0} → (Window → V) → List Window → List (SeriesEntry V)
buckets f ws = map (λ w. record { timestamp = w.from; value = f w }) ws

-- COALESCE(SUM(blocks.tx_count), 0)
abbrev pub count_in : List BlockCount → (ℕ → Bool) → ℕ
count_in blocks within = sum_of (λ b. b.tx_count) (keep (λ b. within b.timestamp) blocks)

-- SUM(count) OVER (ORDER BY date_from ASC ROWS BETWEEN UNBOUNDED PRECEDING AND CURRENT ROW)
unfoldable pub running_sums : ℕ → List (SeriesEntry ℕ) → List (SeriesEntry ℕ)
running_sums total [] = []
running_sums total (row ∷ rows) =
    record { timestamp = row.timestamp; value = total + row.value }
    ∷ running_sums (total + row.value) rows

unfoldable pub transaction_count_series :
    ℕ → ℕ → ℕ → ℕ → Bool → List BlockCount → Option (List (SeriesEntry ℕ))
unfolding ranges running_sums
transaction_count_series start end step width running_total blocks =
    Option.map
      (λ ws.
        let rows = buckets (λ w. count_in blocks (in_range w)) ws in
        if running_total then running_sums 0 rows else rows)
      (ranges start end step width)

module _ {V : Type 0} (zero_average : V) (average : ℕ → ℕ → V) where
  -- COALESCE(AVG(blocks.tx_count), 0): `average` gets the sum and the number of the blocks.
  unfoldable pub average_in : List BlockCount → Window → V
  average_in blocks w =
      let n = length (keep (λ b. in_range w b.timestamp) blocks) in
      if n == 0 then zero_average else average (count_in blocks (in_range w)) n

  unfoldable pub tx_count_stats : ℕ → ℕ → ℕ → ℕ → List BlockCount → Option (List (SeriesEntry V))
  unfolding ranges average_in
  tx_count_stats start end step width blocks =
      Option.map (buckets (average_in blocks)) (ranges start end step width)

-- What the handler replies: the DAO's rows, its error, or the error of its own guard.
abbrev pub replied : {A : Type 0} → Option A → Response A
replied none = throws
replied (some rows) = send rows

abbrev pub and_then : {A B : Type 0} → Response A → (A → Response B) → Response B
and_then (error status text) f = error status text
and_then (send x) f = f x
and_then throws f = throws

module _ (read_interval : Interval → ℕ) (blocks : List BlockCount) where
  unfoldable pub reply_count_series : ℕ → SeriesQuery → Response (List (SeriesEntry ℕ))
  unfolding get_transaction_count_series transaction_count_series
  reply_count_series now q = and_then (get_transaction_count_series now q) (λ call. replied (
      transaction_count_series call.start call.end (read_interval call.interval) call.width_in_ms
        call.running_total blocks))

  unfoldable pub reply_tx_count_stats :
      {V : Type 0} → V → (ℕ → ℕ → V) → ℕ → SeriesQuery → Response (List (SeriesEntry V))
  unfolding get_tx_count_stats tx_count_stats
  reply_tx_count_stats zero_average average now q = and_then (get_tx_count_stats now q) (λ call.
      replied (
        tx_count_stats zero_average average call.start call.end (read_interval call.interval)
          call.width_in_ms blocks))
