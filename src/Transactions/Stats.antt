-- ===== src/Transactions/Stats.antt =====
-- `getTransactionStats` of api/src/dao/TransactionsDAO.ts, with api/src/models/TransactionStats.ts: whole
-- hours are read from the rollup `chain_stats_hourly`, and the edges of the window from the tables.
pub mod Exact
pub mod Hours
pub mod Edges
mod Tests
use dashscan.Prelude.{
  ℕ, ◌+◌, ◌-◌, ◌*◌, ◌/◌, Bool, true, false, ◌&&◌, not, Option, none, some, List, [], ◌∷◌, ◌++◌,
  keep, sum_of, ltb, leb, if◌then◌else◌, ◌==◌, min,
}
use dashscan.Prelude.Windows.{Window, pushed}
use dashscan.Transactions.{Tables, TxRecord, BlockRecord, max_height}

abbrev pub ms_per_hour : ℕ
ms_per_hour = 3600000

-- The counters of a row, and `totals`.
pub record Counters : Type 0 where
  pub special : ℕ
  pub coinjoin : ℕ
  pub multisig : ℕ
  pub normal : ℕ

-- A row of `chain_stats_hourly`.
pub record HourRow : Type 0 where
  pub hour : ℕ
  pub counters : Counters

pub record TransactionStats : Type 0 where
  pub total : ℕ
  pub special : ℕ
  pub coinjoin : ℕ
  pub multisig : ℕ
  pub normal : ℕ

-- TransactionStats.fromRow, of counters that are numbers
unfoldable pub stats_from_row : Counters → TransactionStats
stats_from_row c = record {
  total = c.special + c.coinjoin + c.multisig + c.normal;
  special = c.special;
  coinjoin = c.coinjoin;
  multisig = c.multisig;
  normal = c.normal;
}

-- Math.ceil(start / msPerHour) * msPerHour and Math.floor(end / msPerHour) * msPerHour
abbrev pub hour_lo : ℕ → ℕ
hour_lo start = (start + (ms_per_hour - 1)) / ms_per_hour * ms_per_hour

abbrev pub hour_hi : ℕ → ℕ
hour_hi end = end / ms_per_hour * ms_per_hour

abbrev pub use_rollup : ℕ → ℕ → Bool
use_rollup start end = ltb (hour_lo start) (hour_hi end)

unfoldable pub live_slices : ℕ → ℕ → List Window
live_slices start end =
    if use_rollup start end
    then pushed (ltb start (hour_lo start)) start (hour_lo start - 1)
      ++ pushed (ltb (hour_hi end) end) (hour_hi end) end
    else record { from = start; to = end } ∷ []

-- COUNT(*) FILTER (WHERE p)
abbrev pub counted {ℓ} : {A : Type ℓ} → (A → Bool) → List A → ℕ
counted p xs = sum_of (λ x. if p x then 1 else 0) xs

abbrev pub is_special : TxRecord → Bool
is_special t = ltb 0 t.kind

abbrev pub is_normal : TxRecord → Bool
is_normal t = t.kind == 0 && (not t.coinjoin && not t.multisig)

-- MIN(height), null without blocks
unfoldable pub min_height : List BlockRecord → Option ℕ
min_height [] = none
min_height (b ∷ bs) = elim (min_height bs) [ none ↦ some b.height | some h ↦ some (min b.height h) ]

-- block_height BETWEEN lo AND hi, which null is not
abbrev pub height_between : ℕ → ℕ → Option ℕ → Bool
height_between lo hi none = false
height_between lo hi (some h) = leb lo h && leb h hi

-- Whether a height stands between the lowest and the highest of some blocks; without blocks none does.
unfoldable pub spans : List BlockRecord → Option ℕ → Bool
unfolding min_height max_height
spans bs height = elim (min_height bs) [
  | none ↦ false
  | some lo ↦ elim (max_height bs) [ none ↦ false | some hi ↦ height_between lo hi height ]
]

abbrev pub no_counters : Counters
no_counters = record { special = 0; coinjoin = 0; multisig = 0; normal = 0 }

-- The four counts over transactions that pass a test.
abbrev pub counters_of : (TxRecord → Bool) → List TxRecord → Counters
counters_of chosen txs = record {
  special = counted (λ t. is_special t && chosen t) txs;
  coinjoin = counted (λ t. t.coinjoin && chosen t) txs;
  multisig = counted (λ t. t.multisig && chosen t) txs;
  normal = counted (λ t. is_normal t && chosen t) txs;
}

-- add(row)
abbrev pub add : Counters → Counters → Counters
add totals row = record {
  special = totals.special + row.special;
  coinjoin = totals.coinjoin + row.coinjoin;
  multisig = totals.multisig + row.multisig;
  normal = totals.normal + row.normal;
}

-- The row of the rollup: the sums over the hours from `lo` on and before `hi`.
abbrev pub in_hours : ℕ → ℕ → HourRow → Bool
in_hours lo hi r = leb lo r.hour && ltb r.hour hi

unfoldable pub rollup_row : List HourRow → ℕ → ℕ → Counters
rollup_row hours lo hi =
    let rows = keep (in_hours lo hi) hours in
    record {
      special = sum_of (λ r. r.counters.special) rows;
      coinjoin = sum_of (λ r. r.counters.coinjoin) rows;
      multisig = sum_of (λ r. r.counters.multisig) rows;
      normal = sum_of (λ r. r.counters.normal) rows;
    }

module _ (tables : Tables) where
  -- blocks.whereBetween('timestamp', [from, to])
  abbrev pub blocks_in : Window → List BlockRecord
  blocks_in w = keep (λ b. leb w.from b.timestamp && leb b.timestamp w.to) tables.blocks

  -- Whether the query of a slice counts a transaction; without blocks the slice is skipped.
  unfoldable pub in_slice : Window → TxRecord → Bool
  unfolding spans
  in_slice w t = spans (blocks_in w) t.block_height

  unfoldable pub add_slices : Counters → List Window → Counters
  unfolding in_slice
  add_slices totals [] = totals
  add_slices totals (w ∷ slices) =
      add_slices (add totals (counters_of (in_slice w) tables.transactions)) slices

  unfoldable pub get_transaction_stats : List HourRow → ℕ → ℕ → TransactionStats
  unfolding rollup_row add_slices live_slices stats_from_row
  get_transaction_stats hours start end =
      let totals =
        if use_rollup start end
        then add no_counters (rollup_row hours (hour_lo start) (hour_hi end))
        else no_counters in
      stats_from_row (add_slices totals (live_slices start end))
