-- ===== src/Transactions/Wallet.antt =====
-- `getXpubTransactions` of api/src/dao/TransactionsDAO.ts, with api/src/models/CursorResultSet.ts: the
-- merged history of the addresses of a wallet, page by page.
pub mod Places
pub mod History
pub mod Merge
pub mod Chosen
pub mod Pages
pub mod Follow
use mathlib.Core.Option
use dashscan.Prelude.{
  ℕ, ◌+◌, String, Bool, true, false, ◌&&◌, ◌||◌, not, Option, none, some, List, [], ◌∷◌, ◌++◌, map,
  keep, take, length, sort_by, is_some, leb, ltb, if◌then◌else◌, ◌==◌, str_eq, max,
}
use dashscan.Prelude.Falling.{last}
use dashscan.Models.Transactions.{TransactionRow, Transaction, Reader, from_row}
use dashscan.Transactions.{
  Tables, TxRecord, AddressTx, find, among, owned, joined, pending_transaction_ids, newest_first,
}

pub record CursorResultSet (A : Type 0) : Type 0 where
  pub result_set : List A
  pub limit : ℕ
  pub next_cursor : Option String

pub data Answer (A : Type 0) : Type 0 where
  page_of : CursorResultSet A → Answer A
  invalid_cursor_error : Answer A

-- A transaction's place in a history: its block and its number.
pub record Place : Type 0 where
  pub block_height : ℕ
  pub tx_id : ℕ

-- ORDER BY block_height DESC, tx_id DESC
abbrev pub place_order : Place → Place → Bool
place_order a b =
    if a.block_height == b.block_height
    then leb b.tx_id a.tx_id
    else ltb b.block_height a.block_height

abbrev pub place_of : AddressTx → Place
place_of r = record { block_height = r.block_height; tx_id = r.tx_id }

-- at.block_height <= position.block_height
--   AND (at.block_height < position.block_height OR at.tx_id < position.id)
abbrev pub is_after : Place → Place → Bool
is_after position at =
    leb at.block_height position.block_height
    && (ltb at.block_height position.block_height || ltb at.tx_id position.tx_id)

-- Without a cursor there is no condition.
abbrev pub past : Option Place → Place → Bool
past none at = true
past (some position) at = is_after position at

-- GROUP BY tx_id with MAX(block_height)
unfoldable pub grouped_with : Place → List Place → List Place
grouped_with p [] = p ∷ []
grouped_with p (q ∷ qs) =
    if p.tx_id == q.tx_id
    then record q { block_height = max p.block_height q.block_height } ∷ qs
    else q ∷ grouped_with p qs

unfoldable pub grouped : List Place → List Place
unfolding grouped_with
grouped [] = []
grouped (p ∷ ps) = grouped_with p (grouped ps)

module _ {P : Type 0} (reader : Reader P) where
  -- What is made of the rows: all pending ones, `limit` confirmed ones, and whether there are more.
  unfoldable pub cut_page : ℕ → List TransactionRow → CursorResultSet (Transaction P)
  unfolding from_row
  cut_page limit rows =
      let pending = keep (λ r. not (is_some r.block_height)) rows in
      let confirmed = keep (λ r. is_some r.block_height) rows in
      let has_more = ltb limit (length confirmed) in
      let page = if has_more then take limit confirmed else confirmed in
      record {
        result_set = map (from_row reader) (pending ++ page);
        limit = limit;
        next_cursor = if has_more then Option.map (λ r. r.hash) (last page) else none;
      }

module _ (tables : Tables) where
  -- The page of one address: the index range that the lateral join scans.
  unfoldable pub per_address_page : Option Place → ℕ → ℕ → List Place
  per_address_page position per_address address_id = take per_address (
      sort_by place_order (
        map place_of (
          keep (λ r. r.address_id == address_id && past position (place_of r))
            tables.address_transactions)))

  -- One after the other, over unnest(ids).
  unfoldable pub per_address_pages : Option Place → ℕ → List ℕ → List Place
  unfolding per_address_page
  per_address_pages position per_address [] = []
  per_address_pages position per_address (a ∷ ids) =
      per_address_page position per_address a ++ per_address_pages position per_address ids

  unfoldable pub address_tx_ids : Option Place → ℕ → List ℕ → List Place
  unfolding per_address_pages grouped
  address_tx_ids position per_address ids =
      take per_address (sort_by place_order (grouped (per_address_pages position per_address ids)))

  -- The row that the cursor names: a confirmed transaction with its hash.
  unfoldable pub position_of : String → Option Place
  unfolding find
  position_of cursor =
      Option.bind (find (λ t. str_eq t.hash cursor && is_some t.block_height) tables.transactions)
        (λ t. Option.map (λ h. record { block_height = h; tx_id = t.id }) t.block_height)

  unfoldable pub page_ids : Bool → Option Place → ℕ → List ℕ → List ℕ
  unfolding address_tx_ids pending_transaction_ids
  page_ids first_page position per_address ids =
      let confirmed_ids = map (λ p. p.tx_id) (address_tx_ids position per_address ids) in
      if first_page
      then confirmed_ids ++ pending_transaction_ids tables (owned ids)
      else confirmed_ids

  unfoldable pub rows_of : List ℕ → List TransactionRow
  unfolding joined newest_first
  rows_of tx_ids =
      map (joined tables) (sort_by newest_first (keep (λ t. among tx_ids t.id) tables.transactions))

  module _ {P : Type 0} (reader : Reader P) where
    unfoldable pub wallet_page : Bool → Option Place → ℕ → List ℕ → CursorResultSet (Transaction P)
    unfolding cut_page rows_of page_ids
    wallet_page first_page position limit ids =
        cut_page reader limit (rows_of (page_ids first_page position (limit + 1) ids))

    unfoldable pub get_xpub_transactions : List ℕ → ℕ → Option String → Answer (Transaction P)
    unfolding wallet_page position_of
    get_xpub_transactions [] limit cursor =
        page_of (record { result_set = []; limit = limit; next_cursor = none })
    get_xpub_transactions (a ∷ ids) limit none = page_of (wallet_page true none limit (a ∷ ids))
    get_xpub_transactions (a ∷ ids) limit (some cursor) = elim (position_of cursor) [
      | none ↦ invalid_cursor_error
      | some position ↦ page_of (wallet_page false (some position) limit (a ∷ ids))
    ]
