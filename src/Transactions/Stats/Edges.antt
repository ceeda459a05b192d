-- ===== src/Transactions/Stats/Edges.antt =====
-- The statistics of a window count each transaction that was confirmed in it, once.
use dashscan.Prelude.{ℕ, ◌+◌, ◌≤◌, Bool, ◌&&◌, List, if◌then◌else◌, ◌==◌}
use dashscan.Transactions.{Tables, TxRecord}
use dashscan.Transactions.Stats.{Counters, HourRow, hour_hi, use_rollup, counted, counters_of}
use dashscan.Transactions.Stats.Exact.{IsChain, happened}

-- Where the window ends: after `end`, but for one that ends with a whole hour and uses the rollup, at
-- `end`.
abbrev pub stats_end : ℕ → ℕ → ℕ
stats_end start end = if use_rollup start end && hour_hi end == end then end else end + 1

module _ (tables : Tables) (chain : IsChain tables) where
  abbrev count_of : (TxRecord → Bool) → ℕ → ℕ → ℕ
  count_of k a b = counted (λ t. k t && happened tables a b t) tables.transactions

  abbrev counters_in : ℕ → ℕ → Counters
  counters_in a b = counters_of (happened tables a b) tables.transactions

module _ (tables : Tables) (hours : List HourRow) (start end : ℕ) (chain : IsChain tables)
    (ordered : start ≤ end) where
  abbrev in_window : Counters
  in_window = counters_of (happened tables start (stats_end start end)) tables.transactions
