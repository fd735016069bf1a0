-- ===== src/Client/Entry.antt =====
-- `PyUtxoEntry` and `PyUtxoEntryReference` of src/consensus/client/utxo.rs.
use kaspa_python_sdk.Prelude.{ℕ, String, Bool, Option, Result, PartialEq}
use kaspa_python_sdk.Convert.Backend.{Backend}
use kaspa_python_sdk.Convert.ToDict.{UtxoEntry, UtxoEntryReference}
use kaspa_python_sdk.Client.Equality.{serialized_eq}

module _ (b : Backend) where
  open b use {Address, TransactionOutpoint, ScriptPublicKey}

  unfoldable pub get_address : UtxoEntry b → Option Address
  get_address e = e.address

  unfoldable pub get_outpoint : UtxoEntry b → TransactionOutpoint
  get_outpoint e = e.outpoint

  unfoldable pub get_amount : UtxoEntry b → ℕ
  get_amount e = e.amount

  unfoldable pub get_script_public_key : UtxoEntry b → ScriptPublicKey
  get_script_public_key e = e.script_public_key

  unfoldable pub get_block_daa_score : UtxoEntry b → ℕ
  get_block_daa_score e = e.block_daa_score

  unfoldable pub get_is_coinbase : UtxoEntry b → Bool
  get_is_coinbase e = e.is_coinbase

  unfoldable pub eq {κ} :
      {Bytes : Type κ} ⦃same : PartialEq Bytes⦄
      → (UtxoEntry b → Result String Bytes)
      → UtxoEntry b
      → UtxoEntry b
      → Bool
  eq serialize e other = serialized_eq serialize e other

  -- the reference: its entry, and the fields of that
  unfoldable pub reference_entry : UtxoEntryReference b → UtxoEntry b
  reference_entry r = r.utxo

  unfoldable pub reference_outpoint : UtxoEntryReference b → TransactionOutpoint
  reference_outpoint r = r.utxo.outpoint

  unfoldable pub reference_address : UtxoEntryReference b → Option Address
  reference_address r = r.utxo.address

  unfoldable pub reference_amount : UtxoEntryReference b → ℕ
  reference_amount r = r.utxo.amount

  unfoldable pub reference_is_coinbase : UtxoEntryReference b → Bool
  reference_is_coinbase r = r.utxo.is_coinbase

  unfoldable pub reference_block_daa_score : UtxoEntryReference b → ℕ
  reference_block_daa_score r = r.utxo.block_daa_score

  unfoldable pub reference_script_public_key : UtxoEntryReference b → ScriptPublicKey
  reference_script_public_key r = r.utxo.script_public_key
