-- ===== src/Transactions/Listing.antt =====
-- `getTransactions`, `getTransactionsByBlockHeight` and `getTransactionByHash` of
-- api/src/dao/TransactionsDAO.ts, with the handler of the first in
-- api/src/controllers/TransactionsController.ts.
pub mod Asked
pub mod Pages
mod Tests
use mathlib.Core.Option
use dashscan.Prelude.{
  ℕ, zero, ◌-◌, ◌*◌, String, Bool, true, false, ◌&&◌, ◌||◌, not, Option, none, some, List, [], ◌∷◌,
  map, keep, take, drop, sum_of, sort_by, is_some, get_or_else, leb, ltb, if◌then◌else◌, ◌==◌,
  str_eq,
}
use dashscan.Paging.{PaginatedResultSet, paginated}
use dashscan.Models.Transactions.{Transaction, Reader, from_row, TransactionType, type_number}
use dashscan.Transactions.{Tables, TxRecord, find, joined}
use dashscan.Transactions.Found.{shown}
use dashscan.Transactions.Stats.{counted}

pub data Direction : Type 0 where
  asc desc : Direction

-- The optional conditions: transactionType, coinjoin, multisig and blockHeight.
pub record Filters : Type 0 where
  pub transaction_type : Option ℕ
  pub coinjoin : Option Bool
  pub multisig : Option Bool
  pub block_height : Option ℕ

-- A row of `transaction_type_counts`, and the tables that give totals: that one, the estimate of
-- `pg_class`, and `blocks.tx_count` by height.
pub record TypeCount : Type 0 where
  pub kind : ℕ
  pub coinjoin : Bool
  pub multisig : Bool
  pub count : ℕ

pub record Totals : Type 0 where
  pub type_counts : List TypeCount
  pub reltuples : ℕ
  pub tx_count : ℕ → ℕ

-- if (value != null) builder.where(column, value)
abbrev pub where_number : Option ℕ → ℕ → Bool
where_number none x = true
where_number (some n) x = x == n

abbrev pub same_flag : Bool → Bool → Bool
same_flag true b = b
same_flag false b = not b

abbrev pub where_flag : Option Bool → Bool → Bool
where_flag none x = true
where_flag (some b) x = same_flag x b

abbrev pub where_height : Option ℕ → Option ℕ → Bool
where_height none height = true
where_height (some n) none = false
where_height (some n) (some h) = h == n

abbrev pub is_filtered : Filters → Bool
is_filtered f =
    (is_some f.transaction_type || is_some f.coinjoin)
    || (is_some f.multisig || is_some f.block_height)

unfoldable pub matches : Filters → TxRecord → Bool
matches f t =
    (where_number f.transaction_type t.kind && where_flag f.coinjoin t.coinjoin)
    && (where_flag f.multisig t.multisig && where_height f.block_height t.block_height)

unfoldable pub count_rows : Filters → List TypeCount → ℕ
count_rows f rows =
    sum_of (λ r. r.count)
      (keep
        (λ r.
          where_number f.transaction_type r.kind
          && (where_flag f.coinjoin r.coinjoin && where_flag f.multisig r.multisig))
        rows)

-- ORDER BY block_height, is_coinbase DESC, id ASC, where no height is null
abbrev pub coinbase_first : TxRecord → TxRecord → Bool
coinbase_first a b = if same_flag a.is_coinbase b.is_coinbase then leb a.id b.id else a.is_coinbase

abbrev pub height : TxRecord → ℕ
height t = get_or_else t.block_height 0

unfoldable pub listing_order : Direction → TxRecord → TxRecord → Bool
listing_order asc a b =
    if height a == height b then coinbase_first a b else ltb (height a) (height b)
listing_order desc a b =
    if height a == height b then coinbase_first a b else ltb (height b) (height a)

-- ORDER BY is_coinbase DESC, id
unfoldable pub block_order : Direction → TxRecord → TxRecord → Bool
block_order asc a b = if same_flag a.is_coinbase b.is_coinbase then leb a.id b.id else a.is_coinbase
block_order desc a b =
    if same_flag a.is_coinbase b.is_coinbase then leb b.id a.id else a.is_coinbase

module _ {A : Type 0} where
  -- ORDER BY, LIMIT and OFFSET in the subquery, and the same ORDER BY after the joins.
  unfoldable pub page_rows : (A → A → Bool) → ℕ → ℕ → List A → List A
  page_rows order page limit xs =
      sort_by order (take limit (drop ((page - 1) * limit) (sort_by order xs)))

-- What the listing shows of a transaction: its query reads no special payload.
abbrev pub listed : {P : Type 0} → Tables → Reader P → TxRecord → Transaction P
listed tables reader t = from_row reader (record (joined tables t) { extra_payload = none })

module _ (tables : Tables) (totals : Totals) {P : Type 0} (reader : Reader P) where
  -- The total: counted for a block, summed from the counts by type under another filter, and estimated
  -- without one.
  unfoldable pub total_count : Filters → ℕ
  unfolding matches count_rows
  total_count f =
      if is_some f.block_height
      then counted (matches f) tables.transactions
      else if is_filtered f
      then count_rows f totals.type_counts
      else totals.reltuples

  unfoldable pub get_transactions : ℕ → ℕ → Direction → Filters → PaginatedResultSet (Transaction P)
  unfolding matches page_rows total_count
  get_transactions page limit order f =
      let rows =
        page_rows (listing_order order) page limit
          (keep (λ t. is_some t.block_height && matches f t) tables.transactions) in
      paginated (map (listed tables reader) rows) page limit (total_count f)

  unfoldable pub get_transactions_by_block_height :
      ℕ → ℕ → ℕ → Direction → PaginatedResultSet (Transaction P)
  unfolding page_rows
  get_transactions_by_block_height at page limit order =
      let rows =
        page_rows (block_order order) page limit
          (keep (λ t. where_height (some at) t.block_height) tables.transactions) in
      paginated (map (shown tables reader) rows) page limit (totals.tx_count at)

  -- `trimmed` is hash.trim().
  unfoldable pub get_transaction_by_hash : String → Option (Transaction P)
  unfolding find
  get_transaction_by_hash trimmed =
      Option.map (shown tables reader) (find (λ t. str_eq t.hash trimmed) tables.transactions)

-- The query of the handler.
pub record TransactionsQuery : Type 0 where
  pub page : Option ℕ
  pub limit : Option ℕ
  pub order : Option Direction
  pub coinjoin : Option Bool
  pub multisig : Option Bool
  pub transaction_type : Option String
  pub block_height : Option ℕ

-- What the handler passes on: TransactionType[transactionType] is the number of a name of the enum.
unfoldable pub filters_of : TransactionsQuery → Filters
filters_of q = record {
  transaction_type = Option.bind q.transaction_type type_number;
  coinjoin = q.coinjoin;
  multisig = q.multisig;
  block_height = q.block_height;
}

unfoldable pub handle_get_transactions :
    {P : Type 0}
    → Tables
    → Totals
    → Reader P
    → TransactionsQuery
    → PaginatedResultSet (Transaction P)
unfolding get_transactions filters_of
handle_get_transactions tables totals reader q =
    get_transactions tables totals reader (get_or_else q.page 1) (get_or_else q.limit 10)
      (get_or_else q.order asc) (filters_of q)
