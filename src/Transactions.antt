-- ===== src/Transactions.antt =====
-- The tables that api/src/dao/TransactionsDAO.ts reads, and the parts its queries share: the aggregates
-- of outputs and inputs, the joined row of a transaction, and the pending transactions of addresses.
-- A query is a function of the tables, and `where`, `order by` and `limit` are `keep`, `sort_by` and `take`.
pub mod Found
pub mod Listing
pub mod Stats
pub mod Wallet
mod Tests
use mathlib.Core.Option
use dashscan.Prelude.{
  ℕ, ◌+◌, String, Bool, true, false, ◌&&◌, ◌||◌, not, Option, none, some, List, [], ◌∷◌, map, keep,
  any, sort_by, is_some, leb, ltb, if◌then◌else◌, ◌==◌, ℤ, minus, max,
}
use dashscan.Models.Outputs.{VInRow, VOutRow}
use dashscan.Models.Transactions.{TransactionRow}

-- A row of `transactions`; its special payload, which is a table of its own, stands with it.
pub record TxRecord : Type 0 where
  pub id : ℕ
  pub hash : String
  pub kind : ℕ
  pub block_height : Option ℕ
  pub chain_locked : Bool
  pub instant_lock : Option String
  pub version : ℕ
  pub size : ℕ
  pub amount : Option String
  pub coinjoin : Bool
  pub multisig : Bool
  pub is_coinbase : Bool
  pub payload : Option String

-- A row of `address_transactions`.
pub record AddressTx : Type 0 where
  pub address_id : ℕ
  pub tx_id : ℕ
  pub block_height : ℕ

-- A row of `tx_outputs`, with what `spend_tx` has for it.
pub record OutputRecord : Type 0 where
  pub tx_id : ℕ
  pub address_id : Option ℕ
  pub value : String
  pub vout_index : ℕ
  pub script_pub_key : Option String
  pub script_type : Option String
  pub spent_by_tx_id : Option ℕ
  pub spent_by_vin_index : Option ℕ

-- A row of `tx_inputs`.
pub record InputRecord : Type 0 where
  pub tx_id : ℕ
  pub address_id : Option ℕ
  pub vin_index : ℕ
  pub prev_tx_hash : Option String
  pub prev_vout_index : Option ℕ
  pub amount : Option String

pub record BlockRecord : Type 0 where
  pub height : ℕ
  pub hash : String
  pub timestamp : ℕ

pub record Tables : Type 0 where
  pub transactions : List TxRecord
  pub address_transactions : List AddressTx
  pub outputs : List OutputRecord
  pub inputs : List InputRecord
  pub blocks : List BlockRecord
  -- addresses.address by addresses.id
  pub address : ℕ → Option String

module _ {A : Type 0} where
  -- The first row that passes, as a join on a unique column finds it.
  unfoldable pub find : (A → Bool) → List A → Option A
  find p [] = none
  find p (x ∷ xs) = if p x then some x else find p xs

  -- An aggregate by `json_agg`: null without rows.
  abbrev pub aggregated : {B : Type 0} → (A → B) → List A → Option (List B)
  aggregated f [] = none
  aggregated f (x ∷ xs) = some (map f (x ∷ xs))

-- MAX(height), null without blocks
unfoldable pub max_height : List BlockRecord → Option ℕ
max_height [] = none
max_height (b ∷ bs) = elim (max_height bs) [ none ↦ some b.height | some h ↦ some (max b.height h) ]

-- column = ANY(ids), which null is not
abbrev pub among : List ℕ → ℕ → Bool
among ids a = any (λ b. a == b) ids

abbrev pub owned : List ℕ → Option ℕ → Bool
owned ids none = false
owned ids (some a) = among ids a

module _ (tables : Tables) where
  unfoldable pub output_row : OutputRecord → VOutRow
  unfolding find
  output_row o =
      let spend_tx =
        Option.bind o.spent_by_tx_id (λ i. find (λ t. t.id == i) tables.transactions) in
      record {
        value = some o.value;
        vout_index = some o.vout_index;
        script_pub_key = o.script_pub_key;
        script_type = o.script_type;
        address = Option.bind o.address_id tables.address;
        spent_tx_id = Option.map (λ t. t.hash) spend_tx;
        spent_index = o.spent_by_vin_index;
        spent_height = Option.bind spend_tx (λ t. t.block_height);
      }

  unfoldable pub input_row : InputRecord → VInRow
  input_row i = record {
    prev_tx_hash = i.prev_tx_hash;
    prev_vout_index = i.prev_vout_index;
    address = Option.bind i.address_id tables.address;
    amount = i.amount;
  }

  unfoldable pub outputs_aggregate : ℕ → Option (List VOutRow)
  unfolding output_row
  outputs_aggregate id =
      aggregated output_row
        (sort_by (λ a b. leb a.vout_index b.vout_index) (keep (λ o. o.tx_id == id) tables.outputs))

  unfoldable pub inputs_aggregate : ℕ → Option (List VInRow)
  unfolding input_row
  inputs_aggregate id =
      aggregated input_row
        (sort_by (λ a b. leb a.vin_index b.vin_index) (keep (λ i. i.tx_id == id) tables.inputs))

  unfoldable pub block_at : Option ℕ → Option BlockRecord
  unfolding find
  block_at none = none
  block_at (some height) = find (λ b. b.height == height) tables.blocks

  -- max_height - block_height + 1, null where one of them is
  unfoldable pub confirmations : Option ℕ → Option ℤ
  unfolding max_height
  confirmations none = none
  confirmations (some height) =
      Option.map (λ top. minus (top + 1) height) (max_height tables.blocks)

  -- A row of `subquery` with what the joins give it.
  unfoldable pub joined : TxRecord → TransactionRow
  unfolding confirmations block_at outputs_aggregate inputs_aggregate
  joined t = record {
    hash = t.hash;
    kind = some t.kind;
    block_height = t.block_height;
    block_hash = Option.map (λ b. b.hash) (block_at t.block_height);
    timestamp = Option.map (λ b. b.timestamp) (block_at t.block_height);
    confirmations = confirmations t.block_height;
    instant_lock = t.instant_lock;
    chain_locked = some t.chain_locked;
    version = some t.version;
    size = some t.size;
    inputs = inputs_aggregate t.id;
    outputs = outputs_aggregate t.id;
    amount = t.amount;
    coinjoin = some t.coinjoin;
    multisig = some t.multisig;
    extra_payload = t.payload;
  }

  -- The transactions without a block that pay to an address or spend from one.
  unfoldable pub pending_transaction_ids : (Option ℕ → Bool) → List ℕ
  pending_transaction_ids owned_by =
      map (λ t. t.id)
        (keep
          (λ t.
            not (is_some t.block_height)
            && (any (λ o. o.tx_id == t.id && owned_by o.address_id) tables.outputs
                || any (λ i. i.tx_id == t.id && owned_by i.address_id) tables.inputs))
          tables.transactions)

-- ORDER BY block_height DESC, id DESC: null heights come first.
unfoldable pub newest_first : TxRecord → TxRecord → Bool
newest_first a b = elim a.block_height [
  | none ↦ elim b.block_height [ none ↦ leb b.id a.id | some _ ↦ true ]
  | some h ↦ elim b.block_height [
    | none ↦ false
    | some k ↦ if h == k then leb b.id a.id else ltb k h
  ]
]
