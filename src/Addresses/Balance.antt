-- ===== src/Addresses/Balance.antt =====
-- `getAddressBalanceSeries` of api/src/dao/AddressesDAO.ts: the balance of an address by ranges of time. A
-- sum of what was received and one of what was spent stand for their difference, which is taken at the end.
-- The cast of a text to a whole number is a parameter.
pub mod Moved
pub mod Whole
mod Tests
use mathlib.Core.Option
use dashscan.Prelude.{
  ℕ, ◌+◌, ◌/◌, String, Bool, true, false, not, ◌&&◌, Option, none, some, List, [], ◌∷◌, ◌++◌, map,
  keep, leb, ltb, ◌==◌, if◌then◌else◌, sum_of, ℤ, minus,
}
use dashscan.Prelude.Windows.{Window}
use dashscan.Addresses.Activity.{ms_per_day, day_start}
use dashscan.Buckets.{SeriesEntry, ranges, in_range, buckets}
use dashscan.Transactions.{Tables, AddressTx, BlockRecord, block_at, owned}
use dashscan.Transactions.Stats.{spans, blocks_in}

-- A row of `all_txs`, whose direction is 'received' or 'spent'.
pub record Movement : Type 0 where
  pub timestamp : ℕ
  pub value : ℕ
  pub is_received : Bool

-- A row of `address_balance_deltas`; its day is counted from 1970 on.
pub record DayDelta : Type 0 where
  pub day : ℕ
  pub received : ℕ
  pub sent : ℕ

pub record Flow : Type 0 where
  pub received : ℕ
  pub spent : ℕ

abbrev pub add_flow : Flow → Flow → Flow
add_flow a b = record { received = a.received + b.received; spent = a.spent + b.spent }

abbrev pub balance : Flow → ℤ
balance f = minus f.received f.spent

-- SUM(value) FILTER (WHERE direction = ...)
abbrev pub value_of : Bool → (ℕ → Bool) → Movement → ℕ
value_of is_received within m =
    if (if is_received then m.is_received else not m.is_received) && within m.timestamp
    then m.value
    else 0

abbrev pub flow : (ℕ → Bool) → List Movement → Flow
flow within ms = record {
  received = sum_of (value_of true within) ms;
  spent = sum_of (value_of false within) ms;
}

-- The rows that an inner join gives for each row.
abbrev pub joined_rows : {A B : Type 0} → (A → List B) → List A → List B
joined_rows f [] = []
joined_rows f (x ∷ xs) = f x ++ joined_rows f xs

unfoldable pub opening : List DayDelta → ℕ → Flow
opening deltas start_day =
    let rows = keep (λ d. ltb d.day start_day) deltas in
    record { received = sum_of (λ d. d.received) rows; spent = sum_of (λ d. d.sent) rows }

-- initial_balance + SUM(net_change) OVER (ORDER BY date_from ASC ...)
unfoldable pub running_balances : Flow → List (SeriesEntry Flow) → List (SeriesEntry ℤ)
running_balances total [] = []
running_balances total (row ∷ rows) =
    let sum = add_flow total row.value in
    record { timestamp = row.timestamp; value = balance sum } ∷ running_balances sum rows

-- Values with the time of their block, where it is known.
abbrev pub rows_at : Bool → List ℕ → Option BlockRecord → List Movement
rows_at is_received values none = []
rows_at is_received values (some b) =
    map (λ v. record { timestamp = b.timestamp; value = v; is_received = is_received }) values

module _ (to_bigint : String → ℕ) (tables : Tables) (id : ℕ) where
  -- COALESCE(tx_inputs.amount, 0)::bigint
  abbrev pub spent_value : Option String → ℕ
  spent_value none = 0
  spent_value (some text) = to_bigint text

  unfoldable pub received_in : AddressTx → List Movement
  unfolding block_at
  received_in a =
      rows_at true
        (map (λ o. to_bigint o.value)
          (keep (λ o. o.tx_id == a.tx_id && owned (id ∷ []) o.address_id) tables.outputs))
        (block_at tables (some a.block_height))

  unfoldable pub spent_in : AddressTx → List Movement
  unfolding block_at
  spent_in a =
      rows_at false
        (map (λ i. spent_value i.amount)
          (keep (λ i. i.tx_id == a.tx_id && owned (id ∷ []) i.address_id) tables.inputs))
        (block_at tables (some a.block_height))

  abbrev pub all_txs : List AddressTx → List Movement
  all_txs txs = joined_rows received_in txs ++ joined_rows spent_in txs

  abbrev pub txs_of_address : List AddressTx
  txs_of_address = keep (λ a. a.address_id == id) tables.address_transactions

  -- The transactions between the lowest and the highest block of the window.
  unfoldable pub window_txs : Window → List AddressTx
  unfolding spans
  window_txs w = keep (λ a. spans (blocks_in tables w) (some a.block_height)) txs_of_address

  unfoldable pub address_balance_series :
      List DayDelta → ℕ → ℕ → ℕ → ℕ → Option (List (SeriesEntry ℤ))
  unfolding opening window_txs ranges running_balances
  address_balance_series deltas start end step width =
      let rows = all_txs (window_txs (record { from = day_start start; to = end })) in
      let initial = add_flow (opening deltas (start / ms_per_day)) (flow (λ t. ltb t start) rows) in
      Option.map (λ ws. running_balances initial (buckets (λ w. flow (in_range w) rows) ws))
        (ranges start end step width)
