-- ===== src/Transactions/Stats/Tests.antt =====
-- Tests and witnesses of the statistics: three blocks in three hours, and a window that cuts the first and
-- the last of them.
use dashscan.Prelude.{ℕ, ◌+◌, ◌*◌, ◌≡◌, refl, Bool, true, false, Option, none, some, List, [], ◌∷◌}
use dashscan.Transactions.{Tables, TxRecord, BlockRecord}
use dashscan.Transactions.Stats.{ms_per_hour, HourRow, get_transaction_stats}

abbrev tx : ℕ → ℕ → Bool → Option ℕ → TxRecord
tx id kind coinjoin block_height = record {
  id = id;
  hash = "";
  kind = kind;
  block_height = block_height;
  chain_locked = true;
  instant_lock = none;
  version = 3;
  size = 226;
  amount = none;
  coinjoin = coinjoin;
  multisig = false;
  is_coinbase = false;
  payload = none;
}

abbrev block : ℕ → ℕ → BlockRecord
block height timestamp = record { height = height; hash = ""; timestamp = timestamp }

abbrev tables : Tables
tables = record {
  transactions =
      tx 1 0 true (some 10)
      ∷ tx 2 5 false (some 11)
      ∷ tx 3 0 false (some 12)
      ∷ tx 4 0 false none
      ∷ [];
  address_transactions = [];
  outputs = [];
  inputs = [];
  blocks =
      block 10 (ms_per_hour + 10)
      ∷ block 11 (2 * ms_per_hour + 5)
      ∷ block 12 (3 * ms_per_hour + 7)
      ∷ [];
  address = λ _. none;
}

abbrev row : ℕ → ℕ → ℕ → ℕ → HourRow
row hour special coinjoin normal = record {
  hour = hour * ms_per_hour;
  counters = record { special = special; coinjoin = coinjoin; multisig = 0; normal = normal };
}

abbrev hours : List HourRow
hours = row 1 0 1 0 ∷ row 2 1 0 0 ∷ row 3 0 0 1 ∷ []

abbrev from_time : ℕ
from_time = ms_per_hour + 5

abbrev to_time : ℕ
to_time = 3 * ms_per_hour + 100

stats_of_three_hours :
    get_transaction_stats tables hours from_time to_time
    ≡ record { total = 3; special = 1; coinjoin = 1; multisig = 0; normal = 1 }
unfolding get_transaction_stats
stats_of_three_hours = refl
