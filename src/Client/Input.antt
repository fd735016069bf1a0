-- ===== src/Client/Input.antt =====
-- `PyTransactionInput` of src/consensus/client/input.rs, its state as in Client.Transaction.
use kaspa_python_sdk.Prelude.{
  ℕ, String, Option, none, some, List, ok, PyResult, Result, Bool, PartialEq,
}
use kaspa_python_sdk.Convert.Backend.{Backend}
use kaspa_python_sdk.Convert.ToDict.{TransactionInput, UtxoEntryReference}
use kaspa_python_sdk.Client.Equality.{serialized_eq}

-- `TransactionInput::new`, and `set_signature_script` of the native input
pub record Inputs (b : Backend) : Type 0 where
  pub new :
      b.TransactionOutpoint
      → Option (List ℕ)
      → ℕ
      → ℕ
      → Option (UtxoEntryReference b)
      → TransactionInput b
  pub set_signature_script : TransactionInput b → List ℕ → TransactionInput b

module _ (b : Backend) (n : Inputs b) where
  open b use {TransactionOutpoint}

  unfoldable pub constructor_of :
      TransactionOutpoint
      → List ℕ
      → ℕ
      → ℕ
      → Option (UtxoEntryReference b)
      → PyResult (TransactionInput b)
  constructor_of previous_outpoint signature_script sequence sig_op_count utxo =
      ok (n.new previous_outpoint (some signature_script) sequence sig_op_count utxo)

  unfoldable pub get_previous_outpoint : TransactionInput b → TransactionOutpoint
  get_previous_outpoint i = i.previous_outpoint

  unfoldable pub set_previous_outpoint :
      TransactionInput b → TransactionOutpoint → TransactionInput b × PyResult (Unit {0})
  set_previous_outpoint i value = (record i { previous_outpoint = value }, ok tt)

  unfoldable pub get_signature_script_as_hex : TransactionInput b → Option String
  get_signature_script_as_hex i = elim (i.signature_script) [
    | some script ↦ some (b.to_hex script)
    | none ↦ none
  ]

  unfoldable pub set_signature_script :
      TransactionInput b → List ℕ → TransactionInput b × PyResult (Unit {0})
  set_signature_script i value = (n.set_signature_script i value, ok tt)

  unfoldable pub get_sequence : TransactionInput b → ℕ
  get_sequence i = i.sequence

  unfoldable pub set_sequence : TransactionInput b → ℕ → TransactionInput b
  set_sequence i value = record i { sequence = value }

  unfoldable pub get_sig_op_count : TransactionInput b → ℕ
  get_sig_op_count i = i.sig_op_count

  unfoldable pub set_sig_op_count : TransactionInput b → ℕ → TransactionInput b
  set_sig_op_count i value = record i { sig_op_count = value }

  unfoldable pub get_utxo : TransactionInput b → Option (UtxoEntryReference b)
  get_utxo i = i.utxo

  unfoldable pub eq {κ} :
      {Bytes : Type κ} ⦃same : PartialEq Bytes⦄
      → (TransactionInput b → Result String Bytes)
      → TransactionInput b
      → TransactionInput b
      → Bool
  eq serialize i other = serialized_eq serialize i other
