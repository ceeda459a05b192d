-- ===== src/Addresses/Balance/Tests.antt =====
-- Tests and witnesses of the balances: the address receives 5 on the first day, 7 in a block whose time is
-- that of the start of the window, and spends 3 a second later.
use dashscan.Prelude.{
  ℕ, ◌+◌, ◌-◌, ◌/◌, ◌≡◌, ◌≤◌, refl, String, none, some, List, [], ◌∷◌, All, arith, tabulate, pos,
  str_eq, if◌then◌else◌,
}
use dashscan.Prelude.Order.{In-All}
use dashscan.Transactions.{Tables, OutputRecord, BlockRecord, block_at, find, max_height}
use dashscan.Transactions.Stats.{spans, min_height}
use dashscan.Transactions.Stats.Exact.{IsChain}
use dashscan.Buckets.{ranges}
use dashscan.Addresses.Balance.{
  DayDelta, opening, window_txs, received_in, spent_in, running_balances, address_balance_series,
}
use dashscan.Addresses.Balance.Moved.{IsDaily, moves}
use dashscan.Addresses.Balance.Whole.{balance_entry, address_balance_series-balances}

abbrev start : ℕ
start = 86401000

abbrev block : ℕ → ℕ → BlockRecord
block height timestamp = record { height = height; hash = ""; timestamp = timestamp }

abbrev output : ℕ → String → OutputRecord
output tx_id value = record {
  tx_id = tx_id;
  address_id = some 1;
  value = value;
  vout_index = 0;
  script_pub_key = none;
  script_type = none;
  spent_by_tx_id = none;
  spent_by_vin_index = none;
}

abbrev tables : Tables
tables = record {
  transactions = [];
  address_transactions =
      record { address_id = 1; tx_id = 1; block_height = 10 }
      ∷ record { address_id = 1; tx_id = 2; block_height = 11 }
      ∷ record { address_id = 1; tx_id = 3; block_height = 12 }
      ∷ record { address_id = 2; tx_id = 3; block_height = 12 }
      ∷ [];
  outputs = output 1 "5" ∷ output 2 "7" ∷ [];
  inputs =
      record {
        tx_id = 3;
        address_id = some 1;
        vin_index = 0;
        prev_tx_hash = none;
        prev_vout_index = none;
        amount = some "3";
      }
      ∷ [];
  blocks = block 10 500 ∷ block 11 start ∷ block 12 (start + 1000) ∷ [];
  address = λ _. none;
}

abbrev to_bigint : String → ℕ
to_bigint text = if str_eq text "5" then 5 else if str_eq text "7" then 7 else 3

abbrev deltas : List DayDelta
deltas =
    record { day = 0; received = 5; sent = 0 } ∷ record { day = 1; received = 7; sent = 3 } ∷ []

-- The balance is 9 at the end, but the payment at the very start is in no entry.
misses_the_start :
    address_balance_series to_bigint tables 1 deltas start (start + 2000) 1000 1000
    ≡ some (
        record { timestamp = start; value = pos 2 }
        ∷ record { timestamp = start + 1000; value = pos 2 }
        ∷ [])
unfolding address_balance_series opening window_txs received_in spent_in running_balances block_at
    find spans min_height max_height ranges
misses_the_start = refl

tables-IsChain : IsChain tables
tables-IsChain = record {
  heights_differ = omega arith;
  in_order = λ a b i j h.
      In-All (λ c. a.height ≤ c.height → a.timestamp ≤ c.timestamp) tables.blocks
        (In-All (λ d. All (λ c. d.height ≤ c.height → d.timestamp ≤ c.timestamp) tables.blocks)
          tables.blocks (omega arith) i)
        j h;
  placed = λ t m. elim m [ ];
}

deltas-IsDaily : IsDaily deltas (moves to_bigint tables 1)
unfolding received_in spent_in block_at find
deltas-IsDaily = record { received = λ day. ground arith; sent = λ day. ground arith }

address_balance_series-balances_example :
    address_balance_series to_bigint tables 1 deltas start (start + 2000) 1000 1000
    ≡ some (
        tabulate
          ((start + 2000 - start) / 1000)
          0
          (balance_entry start 1000 (moves to_bigint tables 1)))
address_balance_series-balances_example =
    address_balance_series-balances to_bigint tables 1 tables-IsChain deltas start (start + 2000)
      1000 deltas-IsDaily (omega arith) (omega arith)
