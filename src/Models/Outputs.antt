-- ===== src/Models/Outputs.antt =====
-- api/src/models/VIn.ts, VOut.ts, api/src/types/transaction.ts and `multisigAddresses` of api/src/utils.ts.
use dashscan.Prelude.{
  ℕ, String, Bool, false, ◌&&◌, ◌||◌, Option, none, some, List, [], ◌∷◌, map, keep, or_else,
  is_some, str_eq, if◌then◌else◌, ◌==◌, get_or_else,
}
use mathlib.Core.Option

-- A chunk of a parsed script: its opcode and what it pushes.
pub record Chunk : Type 0 where
  pub opcode : ℕ
  pub pushed : Option String

-- dash-core-sdk, on texts: `Script.fromHex(hex)` with its `ASMString`, `getAddress(NETWORK)` and
-- `parsedScriptChunks`, and the address of the hash of a public key on that network.
pub record Sdk : Type 0 where
  pub asm_string : String → String
  pub get_address : String → Option String
  pub parsed_script_chunks : String → List Chunk
  pub public_key_address : String → String

pub record VInRow : Type 0 where
  pub prev_tx_hash : Option String
  pub prev_vout_index : Option ℕ
  pub address : Option String
  pub amount : Option String

pub record VIn : Type 0 where
  pub sequence : Option ℕ
  pub script_sig_asm : Option String
  pub prev_tx_hash : Option String
  pub v_out_index : Option ℕ
  pub address : Option String
  pub amount : Option String

abbrev pub vin_from_row : VInRow → VIn
vin_from_row row = record {
  sequence = none;
  script_sig_asm = none;
  prev_tx_hash = row.prev_tx_hash;
  v_out_index = row.prev_vout_index;
  address = row.address;
  amount = row.amount;
}

pub record VOutRow : Type 0 where
  pub value : Option String
  pub vout_index : Option ℕ
  pub script_pub_key : Option String
  pub script_type : Option String
  pub address : Option String
  pub spent_tx_id : Option String
  pub spent_index : Option ℕ
  pub spent_height : Option ℕ

pub record VOut : Type 0 where
  pub value : Option String
  pub number : Option ℕ
  pub script_pub_key_asm : Option String
  pub script_pub_key_hex : Option String
  pub script_pub_key_type : Option String
  pub address : Option String
  pub addresses : Option (List String)
  pub spent_tx_id : Option String
  pub spent_index : Option ℕ
  pub spent_height : Option ℕ

abbrev pub script_type_multisig : String
script_type_multisig = "multisig"

-- PUBKEY_PUSH_OPCODES.includes(chunk.opcode) && chunk.data != null
unfoldable pub is_pubkey_push : Chunk → Bool
is_pubkey_push chunk = (chunk.opcode == 33 || chunk.opcode == 65) && is_some chunk.pushed

unfoldable pub multisig_addresses : Sdk → String → List String
unfolding is_pubkey_push
multisig_addresses sdk script_pub_key =
    map (λ c. sdk.public_key_address (get_or_else c.pushed ""))
      (keep is_pubkey_push (sdk.parsed_script_chunks script_pub_key))

-- script_type === SCRIPT_TYPE_MULTISIG
abbrev pub is_multisig : Option String → Bool
is_multisig none = false
is_multisig (some kind) = str_eq kind script_type_multisig

-- `[address]`, or null without one
abbrev pub listed_alone : Option String → Option (List String)
listed_alone none = none
listed_alone (some address) = some (address ∷ [])

-- The address of an output: the indexer's, or else the one that its script pays.
unfoldable pub resolved_address : Sdk → VOutRow → Option String
resolved_address sdk row = elim row.script_pub_key [
  | none ↦ row.address
  | some hex ↦ or_else row.address (sdk.get_address hex)
]

unfoldable pub resolved_addresses : Sdk → VOutRow → Option (List String)
unfolding resolved_address multisig_addresses
resolved_addresses sdk row = elim row.script_pub_key [
  | none ↦ listed_alone row.address
  | some hex ↦
      if is_multisig row.script_type
      then some (multisig_addresses sdk hex)
      else or_else (listed_alone row.address) (listed_alone (resolved_address sdk row))
]

unfoldable pub vout_from_row : Sdk → VOutRow → VOut
unfolding resolved_address resolved_addresses
vout_from_row sdk row = record {
  value = row.value;
  number = row.vout_index;
  script_pub_key_asm = Option.map sdk.asm_string row.script_pub_key;
  script_pub_key_hex = row.script_pub_key;
  script_pub_key_type = row.script_type;
  address = resolved_address sdk row;
  addresses = resolved_addresses sdk row;
  spent_tx_id = row.spent_tx_id;
  spent_index = row.spent_index;
  spent_height = row.spent_height;
}
