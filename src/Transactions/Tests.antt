-- ===== src/Transactions/Tests.antt =====
-- Tests and witnesses of the queries of transactions: a wallet of two addresses with three confirmed
-- transactions, two of them in one block, and one that waits.
use dashscan.Prelude.{
  ℕ, String, ◌≡◌, refl, true, false, Option, none, some, List, [], ◌∷◌, ◌++◌, map, arith, eq_iff,
  str_eq, length, sort_by, ◌≢◌,
}
use mathlib.Core.Option
use dashscan.Models.Transactions.{Reader, Transaction}
use dashscan.Prelude.Order.{here, there}
use dashscan.Transactions.Found.{shown}
use dashscan.Transactions.{Tables, TxRecord, newest_first}
use dashscan.Transactions.Wallet.{get_xpub_transactions}
use dashscan.Transactions.Wallet.History.{IsIndexed, history}
use dashscan.Transactions.Wallet.Pages.{waiting}
use dashscan.Transactions.Wallet.Follow.{follow, follow-history}

abbrev tx : ℕ → String → Option ℕ → TxRecord
tx id hash block_height = record {
  id = id;
  hash = hash;
  kind = 0;
  block_height = block_height;
  chain_locked = true;
  instant_lock = none;
  version = 3;
  size = 226;
  amount = some "1";
  coinjoin = false;
  multisig = false;
  is_coinbase = false;
  payload = none;
}

abbrev tables : Tables
tables = record {
  transactions =
      tx 1 "aa" (some 10) ∷ tx 2 "bb" (some 11) ∷ tx 3 "cc" (some 11) ∷ tx 4 "dd" none ∷ [];
  address_transactions =
      record { address_id = 1; tx_id = 1; block_height = 10 }
      ∷ record { address_id = 1; tx_id = 2; block_height = 11 }
      ∷ record { address_id = 2; tx_id = 2; block_height = 11 }
      ∷ record { address_id = 2; tx_id = 3; block_height = 11 }
      ∷ [];
  outputs =
      record {
        tx_id = 4;
        address_id = some 2;
        value = "1";
        vout_index = 0;
        script_pub_key = none;
        script_type = none;
        spent_by_tx_id = none;
        spent_by_vin_index = none;
      }
      ∷ [];
  inputs = [];
  blocks = record { height = 10; hash = "b10"; timestamp = 1 } ∷ [];
  address = λ _. some "X";
}

abbrev reader : Reader String
reader = record {
  sdk = record {
    asm_string = λ hex. hex;
    get_address = λ _. none;
    parsed_script_chunks = λ _. [];
    public_key_address = λ key. key;
  };
  from_hex = λ _ hex. hex;
}

texts_differ : {s t : String} → str_eq s t ≡ false → s ≢ t
texts_differ {s} {t} h e = ground (arith, eq_iff s t, e, h)

tables-IsIndexed : IsIndexed tables
tables-IsIndexed = record {
  ids_differ = omega arith;
  hashes_differ = (
    (texts_differ refl, (texts_differ refl, (texts_differ refl, tt))),
    ((texts_differ refl, (texts_differ refl, tt)), ((texts_differ refl, tt), (tt, tt))),
  );
  rows_differ = omega arith;
  rows_known = (
    (tx 1 "aa" (some 10), here refl, refl, refl),
    (
      (tx 2 "bb" (some 11), there (here refl), refl, refl),
      (
        (tx 2 "bb" (some 11), there (here refl), refl, refl),
        ((tx 3 "cc" (some 11), there (there (here refl)), refl, refl), tt),
      ),
    ),
  );
}

three : length (history tables (1 ∷ 2 ∷ [])) ≡ 3
unfolding sort_by newest_first
three = refl

hashes : Option (List (Transaction String)) → Option (List String)
hashes none = none
hashes (some items) = some (map (λ t. t.hash) items)

follow_two_addresses :
    hashes (follow tables reader 1 (1 ∷ 2 ∷ []) 4 none) ≡ some ("dd" ∷ "cc" ∷ "bb" ∷ "aa" ∷ [])
unfolding hashes follow get_xpub_transactions sort_by Option.bind
follow_two_addresses = refl

follow-history_example :
    follow tables reader 1 (1 ∷ 2 ∷ []) 4 none
    ≡ some (map (shown tables reader) (waiting tables (1 ∷ 2 ∷ []) ++ history tables (1 ∷ 2 ∷ [])))
follow-history_example =
    follow-history tables reader 1 (1 ∷ 2 ∷ []) 4 tables-IsIndexed (omega arith)
      (rw three (omega arith))
