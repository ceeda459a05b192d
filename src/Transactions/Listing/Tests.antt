-- ===== src/Transactions/Listing/Tests.antt =====
-- Tests and witnesses of the listings: two blocks, and a transaction that waits.
use mathlib.Core.Option
use dashscan.Prelude.{
  ℕ, ◌≡◌, refl, Bool, true, false, Option, none, some, List, [], ◌∷◌, map, sort_by, pos,
}
use dashscan.Models.Transactions.{Reader, Transaction, type_number, from_row}
use dashscan.Transactions.{Tables, TxRecord, joined}
use dashscan.Transactions.Listing.{
  Totals, TransactionsQuery, desc, matches, filters_of, listing_order, block_order, page_rows,
  total_count, count_rows, get_transactions, get_transactions_by_block_height,
  handle_get_transactions,
}

abbrev tx : ℕ → Bool → ℕ → Option ℕ → TxRecord
tx id is_coinbase kind block_height = record {
  id = id;
  hash = "";
  kind = kind;
  block_height = block_height;
  chain_locked = true;
  instant_lock = none;
  version = 3;
  size = id;
  amount = none;
  coinjoin = false;
  multisig = false;
  is_coinbase = is_coinbase;
  payload = none;
}

abbrev tables : Tables
tables = record {
  transactions =
      tx 1 false 0 (some 10)
      ∷ tx 2 true 5 (some 10)
      ∷ tx 3 false 0 none
      ∷ tx 4 false 0 (some 11)
      ∷ tx 5 false 0 (some 10)
      ∷ [];
  address_transactions = [];
  outputs = [];
  inputs = [];
  blocks = [];
  address = λ _. none;
}

abbrev totals : Totals
totals = record {
  type_counts =
      record { kind = 0; coinjoin = false; multisig = false; count = 3 }
      ∷ record { kind = 5; coinjoin = false; multisig = false; count = 1 }
      ∷ [];
  reltuples = 4;
  tx_count = λ _. 3;
}

abbrev reader : Reader ℕ
reader = record {
  sdk = record {
    asm_string = λ hex. hex;
    get_address = λ _. none;
    parsed_script_chunks = λ _. [];
    public_key_address = λ key. key;
  };
  from_hex = λ _ _. 0;
}

abbrev query : TransactionsQuery
query = record {
  page = none;
  limit = none;
  order = some desc;
  coinjoin = none;
  multisig = some false;
  transaction_type = some "CLASSIC";
  block_height = none;
}

sizes : List (Transaction ℕ) → List (Option ℕ)
sizes ts = map (λ t. t.size) ts

second_page :
    sizes
      (handle_get_transactions tables totals reader
        (record query { page = some 2; limit = some 2 })).result_set
    ≡ some 5 ∷ []
unfolding sizes handle_get_transactions get_transactions page_rows sort_by matches filters_of
    type_number listing_order total_count count_rows Option.bind from_row joined
second_page = refl

total_by_type : (handle_get_transactions tables totals reader query).total ≡ pos 3
unfolding handle_get_transactions get_transactions page_rows sort_by matches filters_of type_number
    listing_order total_count count_rows Option.bind
total_by_type = refl

block_page :
    sizes (get_transactions_by_block_height tables totals reader 10 1 2 desc).result_set
    ≡ some 2 ∷ some 5 ∷ []
unfolding sizes get_transactions_by_block_height page_rows sort_by block_order from_row joined
block_page = refl
