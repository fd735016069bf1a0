-- ===== src/Convert/ToDict.antt =====
-- `TryToPyDict` of src/consensus/convert.rs, over the records that the parts of a transaction are.
use kaspa_python_sdk.Prelude.{ℕ, Bool, Option, none, some, List, map}
use kaspa_python_sdk.Convert.Backend.{Backend}

module _ (b : Backend) where
  open b use {
    PyAny, PyDict, Address, Hash, SubnetworkId, ScriptPublicKey, TransactionOutpoint, empty,
    set_item, of_none, of_string, of_int, of_bool, of_dict, of_list, to_hex, address_to_string,
    hash_to_hex, subnetwork_to_hex, spk_version, script_as_hex, outpoint_to_dict,
  }

  -- `UtxoEntry`, and `UtxoEntryReference` around it
  pub record UtxoEntry : Type 0 where
    pub address : Option Address
    pub outpoint : TransactionOutpoint
    pub amount : ℕ  -- u64
    pub script_public_key : ScriptPublicKey
    pub block_daa_score : ℕ  -- u64
    pub is_coinbase : Bool

  pub record UtxoEntryReference : Type 0 where
    pub utxo : UtxoEntry

  pub record TransactionInput : Type 0 where
    pub previous_outpoint : TransactionOutpoint
    pub signature_script : Option (List ℕ)
    pub sequence : ℕ  -- u64
    pub sig_op_count : ℕ  -- u8
    pub utxo : Option UtxoEntryReference

  pub record TransactionOutput : Type 0 where
    pub value : ℕ  -- u64
    pub script_public_key : ScriptPublicKey

  pub record Transaction : Type 0 where
    pub id : Hash
    pub version : ℕ  -- u16
    pub inputs : List TransactionInput
    pub outputs : List TransactionOutput
    pub lock_time : ℕ  -- u64
    pub subnetwork_id : SubnetworkId
    pub gas : ℕ  -- u64
    pub payload : List ℕ
    pub mass : ℕ  -- u64

  unfoldable pub spk_to_dict : ScriptPublicKey → PyDict
  spk_to_dict spk =
      let d = set_item empty "version" (of_int (spk_version spk)) in
      set_item d "script" (of_string (script_as_hex spk))

  unfoldable pub address_object : Option Address → PyAny
  address_object (some addr) = of_string (address_to_string addr)
  address_object none = of_none

  unfoldable pub entry_to_dict : UtxoEntry → PyDict
  entry_to_dict e =
      let d = set_item empty "address" (address_object e.address) in
      let d = set_item d "outpoint" (of_dict (outpoint_to_dict e.outpoint)) in
      let d = set_item d "amount" (of_int e.amount) in
      let d = set_item d "scriptPublicKey" (of_dict (spk_to_dict e.script_public_key)) in
      let d = set_item d "blockDaaScore" (of_int e.block_daa_score) in
      set_item d "isCoinbase" (of_bool e.is_coinbase)

  -- the flat form, the fields read through the reference
  unfoldable pub reference_to_dict : UtxoEntryReference → PyDict
  reference_to_dict r =
      let d = set_item empty "address" (address_object r.utxo.address) in
      let d = set_item d "outpoint" (of_dict (outpoint_to_dict r.utxo.outpoint)) in
      let d = set_item d "amount" (of_int r.utxo.amount) in
      let d = set_item d "scriptPublicKey" (of_dict (spk_to_dict r.utxo.script_public_key)) in
      let d = set_item d "blockDaaScore" (of_int r.utxo.block_daa_score) in
      set_item d "isCoinbase" (of_bool r.utxo.is_coinbase)

  unfoldable pub signature_object : Option (List ℕ) → PyAny
  signature_object (some script) = of_string (to_hex script)
  signature_object none = of_none

  unfoldable pub utxo_object : Option UtxoEntryReference → PyAny
  utxo_object (some r) = of_dict (reference_to_dict r)
  utxo_object none = of_none

  unfoldable pub input_to_dict : TransactionInput → PyDict
  input_to_dict i =
      let d = set_item empty "previousOutpoint" (of_dict (outpoint_to_dict i.previous_outpoint)) in
      let d = set_item d "signatureScript" (signature_object i.signature_script) in
      let d = set_item d "sequence" (of_int i.sequence) in
      let d = set_item d "sigOpCount" (of_int i.sig_op_count) in
      set_item d "utxo" (utxo_object i.utxo)

  unfoldable pub output_to_dict : TransactionOutput → PyDict
  output_to_dict o =
      let d = set_item empty "value" (of_int o.value) in
      set_item d "scriptPublicKey" (of_dict (spk_to_dict o.script_public_key))

  unfoldable pub transaction_to_dict : Transaction → PyDict
  transaction_to_dict tx =
      let d = set_item empty "id" (of_string (hash_to_hex tx.id)) in
      let d = set_item d "version" (of_int tx.version) in
      let d = set_item d "inputs" (of_list (map (λ i. of_dict (input_to_dict i)) tx.inputs)) in
      let d = set_item d "outputs" (of_list (map (λ o. of_dict (output_to_dict o)) tx.outputs)) in
      let d = set_item d "lockTime" (of_int tx.lock_time) in
      let d = set_item d "subnetworkId" (of_string (subnetwork_to_hex tx.subnetwork_id)) in
      let d = set_item d "gas" (of_int tx.gas) in
      let d = set_item d "payload" (of_string (to_hex tx.payload)) in
      set_item d "mass" (of_int tx.mass)
