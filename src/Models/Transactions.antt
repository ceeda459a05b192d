-- ===== src/Models/Transactions.antt =====
-- `fromRow` of api/src/models/Transaction.ts, and api/src/enums/TransactionType.ts.
use mathlib.Core.Option
use dashscan.Prelude.{ℕ, zero, suc, String, Bool, Option, none, some, List, map, ℤ}
use dashscan.Prelude.{[], ◌∷◌}
use dashscan.Prelude.Maps.{lookup}
use dashscan.Models.Outputs.{Sdk, VIn, VInRow, VOut, VOutRow, vin_from_row, vout_from_row}

-- enum TransactionType, from 0 on
pub data TransactionType : Type 0 where
  classic provider_registration provider_update_service provider_update_registrar : TransactionType
  provider_update_revocation coinbase quorum_commitment : TransactionType
  masternode_hard_fork_signal asset_lock asset_unlock : TransactionType

-- The member of the enum with a number, if there is one.
unfoldable pub transaction_type_of : ℕ → Option TransactionType
transaction_type_of zero = some classic
transaction_type_of (suc zero) = some provider_registration
transaction_type_of (suc (suc zero)) = some provider_update_service
transaction_type_of (suc (suc (suc zero))) = some provider_update_registrar
transaction_type_of (suc (suc (suc (suc zero)))) = some provider_update_revocation
transaction_type_of (suc (suc (suc (suc (suc zero))))) = some coinbase
transaction_type_of (suc (suc (suc (suc (suc (suc zero)))))) = some quorum_commitment
transaction_type_of (suc (suc (suc (suc (suc (suc (suc zero))))))) =
    some masternode_hard_fork_signal
transaction_type_of (suc (suc (suc (suc (suc (suc (suc (suc zero)))))))) = some asset_lock
transaction_type_of (suc (suc (suc (suc (suc (suc (suc (suc (suc zero))))))))) = some asset_unlock
transaction_type_of n = none

unfoldable pub type_name : TransactionType → String
type_name classic = "CLASSIC"
type_name provider_registration = "PROVIDER_REGISTRATION"
type_name provider_update_service = "PROVIDER_UPDATE_SERVICE"
type_name provider_update_registrar = "PROVIDER_UPDATE_REGISTRAR"
type_name provider_update_revocation = "PROVIDER_UPDATE_REVOCATION"
type_name coinbase = "COINBASE"
type_name quorum_commitment = "QUORUM_COMMITMENT"
type_name masternode_hard_fork_signal = "MASTERNODE_HARD_FORK_SIGNAL"
type_name asset_lock = "ASSET_LOCK"
type_name asset_unlock = "ASSET_UNLOCK"

abbrev type_names : List (String × ℕ)
type_names =
    ("CLASSIC", 0)
    ∷ ("PROVIDER_REGISTRATION", 1)
    ∷ ("PROVIDER_UPDATE_SERVICE", 2)
    ∷ ("PROVIDER_UPDATE_REGISTRAR", 3)
    ∷ ("PROVIDER_UPDATE_REVOCATION", 4)
    ∷ ("COINBASE", 5)
    ∷ ("QUORUM_COMMITMENT", 6)
    ∷ ("MASTERNODE_HARD_FORK_SIGNAL", 7)
    ∷ ("ASSET_LOCK", 8)
    ∷ ("ASSET_UNLOCK", 9)
    ∷ []

-- TransactionType[name]: the number of the member with a name.
unfoldable pub type_number : String → Option ℕ
unfolding lookup
type_number name = lookup name type_names

-- dash-core-sdk reads the scripts, and the payload of each type that has a decoder: the class with its
-- `fromHex`. A value of the type of payloads is what a decoder gives.
pub record Reader (P : Type 0) : Type 0 where
  pub sdk : Sdk
  pub from_hex : TransactionType → String → P

pub record TransactionRow : Type 0 where
  pub hash : String
  pub kind : Option ℕ
  pub block_height : Option ℕ
  pub block_hash : Option String
  pub timestamp : Option ℕ
  pub confirmations : Option ℤ
  pub instant_lock : Option String
  pub chain_locked : Option Bool
  pub version : Option ℕ
  pub size : Option ℕ
  pub inputs : Option (List VInRow)
  pub outputs : Option (List VOutRow)
  pub amount : Option String
  pub coinjoin : Option Bool
  pub multisig : Option Bool
  pub extra_payload : Option String

pub record Transaction (P : Type 0) : Type 0 where
  pub hash : String
  pub kind : Option String
  pub block_height : Option ℕ
  pub block_hash : Option String
  pub timestamp : Option ℕ
  pub amount : Option String
  pub version : Option ℕ
  pub v_in : Option (List VIn)
  pub v_out : Option (List VOut)
  pub confirmations : Option ℤ
  pub instant_lock : Option String
  pub chain_locked : Option Bool
  pub size : Option ℕ
  pub coinjoin : Option Bool
  pub multisig : Option Bool
  pub extra_payload : Option P

module _ {P : Type 0} (reader : Reader P) where
  -- The switch over the type: no payload is read for a classic transaction or an unknown type.
  unfoldable pub payload_of : Option TransactionType → String → Option P
  payload_of none hex = none
  payload_of (some classic) hex = none
  payload_of (some kind) hex = some (reader.from_hex kind hex)

  unfoldable pub read_payload : Option ℕ → Option String → Option P
  unfolding payload_of transaction_type_of
  read_payload kind none = none
  read_payload kind (some hex) = payload_of (Option.bind kind transaction_type_of) hex

  unfoldable pub from_row : TransactionRow → Transaction P
  unfolding type_name transaction_type_of read_payload vout_from_row
  from_row row = record {
    hash = row.hash;
    kind = Option.map type_name (Option.bind row.kind transaction_type_of);
    block_height = row.block_height;
    block_hash = row.block_hash;
    timestamp = row.timestamp;
    amount = row.amount;
    version = row.version;
    v_in = Option.map (map vin_from_row) row.inputs;
    v_out = Option.map (map (vout_from_row reader.sdk)) row.outputs;
    confirmations = row.confirmations;
    instant_lock = row.instant_lock;
    chain_locked = row.chain_locked;
    size = row.size;
    coinjoin = row.coinjoin;
    multisig = row.multisig;
    extra_payload = read_payload row.kind row.extra_payload;
  }
