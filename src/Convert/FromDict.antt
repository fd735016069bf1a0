-- ===== src/Convert/FromDict.antt =====
-- The `TryFrom<&Bound<PyDict>>` conversions of src/consensus/client: utxo.rs, output.rs, input.rs
-- and transaction.rs.
use kaspa_python_sdk.Prelude.{
  ℕ, Option, none, some, List, [], String, Result, ok, err, PyResult, exception, key_error,
  value_error, raised, ◌>>=◌, map_err, ok_or, try_map, if◌then◌else◌, ◌==◌, eq_of_string,
}
use kaspa_python_sdk.Convert.Backend.{Backend}
use kaspa_python_sdk.Convert.Binary.{extract_binary}
use kaspa_python_sdk.Convert.ToDict.{
  UtxoEntry, UtxoEntryReference, TransactionInput, TransactionOutput, Transaction,
}

module _ (b : Backend) where
  open b use {
    PyAny, PyDict, Address, Hash, SubnetworkId, ScriptPublicKey, TransactionOutpoint, get_item,
    is_none, extract_string, extract_u8, extract_u16, extract_u64, extract_bool, extract_spk,
    cast_dict, cast_list, hex_decode, vec_from_hex, address_from_string, hash_from_hex,
    subnetwork_from_bytes, new_spk, spk_from_str, outpoint_from_dict,
  }

  -- `dict.get_item(k)?.ok_or_else(|| PyKeyError::new_err(missing))?`
  abbrev pub required : PyDict → String → String → PyResult PyAny
  required dict k missing = ok_or (key_error missing) (get_item dict k)

  -- `dict.as_any().get_item(k)?`, which raises `KeyError` itself
  abbrev pub subscript : PyDict → String → PyResult PyAny
  subscript dict k = ok_or (raised k) (get_item dict k)

  -- the optional `address`
  unfoldable pub address_of : PyDict → PyResult (Option Address)
  address_of dict = elim (get_item dict "address") [
    | none ↦ ok none
    | some item ↦ if is_none item then ok none else (do
      s ← extract_string item
      address ← map_err exception (address_from_string s)
      ok (some address))
  ]

  unfoldable pub outpoint_of : PyDict → String → String → PyResult TransactionOutpoint
  outpoint_of dict k missing = do
    item ← required dict k missing
    outpoint_dict ← cast_dict item
    outpoint_from_dict outpoint_dict

  -- `PyScriptPublicKey::constructor` at the two fields of a dict
  unfoldable pub spk_of_dict : PyDict → PyResult ScriptPublicKey
  spk_of_dict spk_dict = do
    version_item ← subscript spk_dict "version"
    version ← extract_u16 version_item
    script_item ← subscript spk_dict "script"
    script ← extract_binary b script_item
    ok (new_spk version script)

  -- a `ScriptPublicKey` or a dict
  unfoldable pub spk_of : PyAny → PyResult ScriptPublicKey
  spk_of spk_obj = elim (extract_spk spk_obj) [
    | ok spk ↦ ok spk
    | err _ ↦ elim (cast_dict spk_obj) [
      | ok spk_dict ↦ spk_of_dict spk_dict
      | err _ ↦ err (value_error "Value for `scriptPublicKey` must be type ScriptPublicKey or dict")
    ]
  ]

  -- a `ScriptPublicKey`, its hex text, or a dict
  unfoldable pub spk_or_hex_of : PyAny → PyResult ScriptPublicKey
  spk_or_hex_of spk_obj = elim (extract_spk spk_obj) [
    | ok spk ↦ ok spk
    | err _ ↦ elim (extract_string spk_obj) [
      | ok s ↦ map_err exception (spk_from_str s)
      | err _ ↦ elim (cast_dict spk_obj) [
        | ok spk_dict ↦ spk_of_dict spk_dict
        | err _ ↦
            err
              (value_error "Value for `scriptPublicKey` must be type ScriptPublicKey, str, or dict")
      ]
    ]
  ]

  -- `TryFrom for PyUtxoEntry`
  unfoldable pub entry_from_dict : PyDict → PyResult (UtxoEntry b)
  entry_from_dict dict = do
    address ← address_of dict
    outpoint ← outpoint_of dict "outpoint" "Key `outpoint` not present"
    amount_item ← required dict "amount" "Key `amount` not present"
    amount ← extract_u64 amount_item
    spk_obj ← required dict "scriptPublicKey" "Key `scriptPublicKey` not present"
    script_public_key ← spk_of spk_obj
    daa_item ← required dict "blockDaaScore" "Key `blockDaaScore` not present"
    block_daa_score ← extract_u64 daa_item
    coinbase_item ← required dict "isCoinbase" "Key `isCoinbase` not present"
    is_coinbase ← extract_bool coinbase_item
    ok (record {
      address = address;
      outpoint = outpoint;
      amount = amount;
      script_public_key = script_public_key;
      block_daa_score = block_daa_score;
      is_coinbase = is_coinbase;
    })

  -- the dict with the fields: that under `utxoEntry`, or the dict itself
  unfoldable pub source_dict_of : PyDict → PyResult PyDict
  source_dict_of dict = elim (get_item dict "utxoEntry") [
    | some utxo_entry ↦ cast_dict utxo_entry
    | none ↦ ok dict
  ]

  -- `TryFrom for PyUtxoEntryReference`
  unfoldable pub reference_from_dict : PyDict → PyResult (UtxoEntryReference b)
  reference_from_dict dict = do
    address ← address_of dict
    outpoint ← outpoint_of dict "outpoint" "Key `outpoint` not present"
    source_dict ← source_dict_of dict
    amount_item ← required source_dict "amount" "Key `amount` not present"
    amount ← extract_u64 amount_item
    spk_obj ← required source_dict "scriptPublicKey" "Key `scriptPublicKey` not present"
    script_public_key ← spk_or_hex_of spk_obj
    daa_item ← required source_dict "blockDaaScore" "Key `blockDaaScore` not present"
    block_daa_score ← extract_u64 daa_item
    coinbase_item ← required source_dict "isCoinbase" "Key `isCoinbase` not present"
    is_coinbase ← extract_bool coinbase_item
    ok (record {
      utxo = record {
        address = address;
        outpoint = outpoint;
        amount = amount;
        script_public_key = script_public_key;
        block_daa_score = block_daa_score;
        is_coinbase = is_coinbase;
      };
    })

  -- `TryFrom for PyTransactionOutput`
  unfoldable pub output_from_dict : PyDict → PyResult (TransactionOutput b)
  output_from_dict dict = do
    value_item ← subscript dict "value"
    value ← extract_u64 value_item
    spk_obj ← subscript dict "scriptPublicKey"
    spk ← spk_of spk_obj
    ok (record { value = value; script_public_key = spk })

  -- the text of a signature script, which may be empty
  unfoldable pub decode_signature : String → PyResult (Option (List ℕ))
  decode_signature sig_hex =
      if sig_hex == ""
      then ok (some [])
      else (do bytes ← map_err key_error (hex_decode sig_hex); ok (some bytes))

  unfoldable pub signature_script_of : PyDict → PyResult (Option (List ℕ))
  signature_script_of dict = elim (get_item dict "signatureScript") [
    | none ↦ ok none
    | some sig_item ↦
        if is_none sig_item
        then ok none
        else (do sig_hex ← extract_string sig_item; decode_signature sig_hex)
  ]

  unfoldable pub utxo_of : PyDict → PyResult (Option (UtxoEntryReference b))
  utxo_of dict = elim (get_item dict "utxo") [
    | none ↦ ok none
    | some utxo_item ↦ if is_none utxo_item then ok none else (do
      utxo_dict ← cast_dict utxo_item
      reference ← reference_from_dict utxo_dict
      ok (some reference))
  ]

  -- `TryFrom for PyTransactionInput`
  unfoldable pub input_from_dict : PyDict → PyResult (TransactionInput b)
  input_from_dict dict = do
    previous_outpoint ← outpoint_of dict "previousOutpoint" "Key `previousOutpoint` not present"
    signature_script ← signature_script_of dict
    sequence_item ← required dict "sequence" "Key `sequence` not present"
    sequence ← extract_u64 sequence_item
    count_item ← required dict "sigOpCount" "Key `sigOpCount` not present"
    sig_op_count ← extract_u8 count_item
    utxo ← utxo_of dict
    ok (record {
      previous_outpoint = previous_outpoint;
      signature_script = signature_script;
      sequence = sequence;
      sig_op_count = sig_op_count;
      utxo = utxo;
    })

  -- a list item of `inputs` and of `outputs`
  unfoldable pub item_input : PyAny → PyResult (TransactionInput b)
  item_input item = do input_dict ← cast_dict item; input_from_dict input_dict

  unfoldable pub item_output : PyAny → PyResult (TransactionOutput b)
  item_output item = do output_dict ← cast_dict item; output_from_dict output_dict

  -- the payload text, which may be empty
  unfoldable pub payload_of : String → PyResult (List ℕ)
  payload_of payload_str =
      if payload_str == "" then ok [] else map_err exception (vec_from_hex payload_str)

  -- `Transaction::new` of kaspa_consensus_client
  abbrev pub NewTransaction : Type 0
  NewTransaction =
      Option Hash
      → ℕ
      → List (TransactionInput b)
      → List (TransactionOutput b)
      → ℕ
      → SubnetworkId
      → ℕ
      → List ℕ
      → ℕ
      → Result String (Transaction b)

  -- `TryFrom for PyTransaction`
  unfoldable pub transaction_from_dict : NewTransaction → PyDict → PyResult (Transaction b)
  transaction_from_dict new_transaction dict = do
    id_item ← required dict "id" "Key `id` not present"
    id_str ← extract_string id_item
    id ← map_err exception (hash_from_hex id_str)
    version_item ← required dict "version" "Key `version` not present"
    version ← extract_u16 version_item
    lock_item ← required dict "lockTime" "Key `lockTime` not present"
    lock_time ← extract_u64 lock_item
    subnetwork_item ← required dict "subnetworkId" "Key `subnetworkId` not present"
    subnetwork_str ← extract_string subnetwork_item
    subnetwork_bytes ← map_err exception (vec_from_hex subnetwork_str)
    subnetwork_id ← map_err exception (subnetwork_from_bytes subnetwork_bytes)
    gas_item ← required dict "gas" "Key `gas` not present"
    gas ← extract_u64 gas_item
    payload_item ← required dict "payload" "Key `payload` not present"
    payload_str ← extract_string payload_item
    payload ← payload_of payload_str
    mass_item ← required dict "mass" "Key `mass` not present"
    mass ← extract_u64 mass_item
    inputs_item ← required dict "inputs" "Key `inputs` not present"
    inputs_list ← cast_list inputs_item
    inputs ← try_map item_input inputs_list
    outputs_item ← required dict "outputs" "Key `outputs` not present"
    outputs_list ← cast_list outputs_item
    outputs ← try_map item_output outputs_list
    map_err exception
        (new_transaction (some id) version inputs outputs lock_time subnetwork_id gas payload mass)
