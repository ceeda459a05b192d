-- ===== src/Transactions/Listing/Pages.antt =====
-- The pages of a listing are the whole listing, in order.
use mathlib.Core.Option
use dashscan.Prelude.{
  Bool, Option, sum_of, if◌then◌else◌, IsSorted, ℕ, ◌≡◌, Bool, ◌&&◌, some, List, keep, sort_by,
  is_some, get_or_else,
}
use dashscan.Transactions.{Tables, TxRecord}
use dashscan.Transactions.Listing.{
  Direction, asc, TransactionsQuery, matches, where_height, listing_order, block_order, filters_of,
}

-- The listings that the pages are cut from.
abbrev confirmed : Tables → TransactionsQuery → List TxRecord
confirmed tables q =
    sort_by (listing_order (get_or_else q.order asc))
      (keep (λ t. is_some t.block_height && matches (filters_of q) t) tables.transactions)

abbrev in_block : Tables → ℕ → Direction → List TxRecord
in_block tables at d =
    sort_by (block_order d) (keep (λ t. where_height (some at) t.block_height) tables.transactions)

-- Rows that are those of a table that pass a test, each as often as there, in an order.
abbrev pub IsListing :
    (TxRecord → Bool) → (TxRecord → TxRecord → Bool) → List TxRecord → List TxRecord → Type 0
IsListing test order table rows =
    ((f : TxRecord → ℕ) → sum_of f rows ≡ sum_of (λ t. if test t then f t else 0) table)
    × IsSorted order rows
