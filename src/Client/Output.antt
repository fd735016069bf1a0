-- ===== src/Client/Output.antt =====
-- `PyTransactionOutput` of src/consensus/client/output.rs, its state as in Client.Transaction.
use kaspa_python_sdk.Prelude.{ℕ, String, Result, Bool, PartialEq}
use kaspa_python_sdk.Convert.Backend.{Backend}
use kaspa_python_sdk.Convert.ToDict.{TransactionOutput}
use kaspa_python_sdk.Client.Equality.{serialized_eq}

module _ (b : Backend) where
  open b use {ScriptPublicKey}

  unfoldable pub get_value : TransactionOutput b → ℕ
  get_value o = o.value

  unfoldable pub set_value : TransactionOutput b → ℕ → TransactionOutput b
  set_value o value = record o { value = value }

  unfoldable pub get_script_public_key : TransactionOutput b → ScriptPublicKey
  get_script_public_key o = o.script_public_key

  unfoldable pub set_script_public_key : TransactionOutput b → ScriptPublicKey → TransactionOutput b
  set_script_public_key o value = record o { script_public_key = value }

  unfoldable pub eq {κ} :
      {Bytes : Type κ} ⦃same : PartialEq Bytes⦄
      → (TransactionOutput b → Result String Bytes)
      → TransactionOutput b
      → TransactionOutput b
      → Bool
  eq serialize o other = serialized_eq serialize o other
