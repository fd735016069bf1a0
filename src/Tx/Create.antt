-- ===== src/Tx/Create.antt =====
-- `create_transaction` of src/wallet/core/tx/utils.rs. The sum of the amounts wraps around as u64
-- does in a release build.
use kaspa_python_sdk.Prelude.{
  ℕ, ◌+◌, ◌%◌, ◌^◌, Option, none, some, List, [], ◌∷◌, map, err, exception, fee_exceeds, PyResult,
  map_err, unwrap_or, ltb, if◌then◌else◌,
}
use kaspa_python_sdk.Convert.Backend.{Backend}
use kaspa_python_sdk.Convert.FromDict.{NewTransaction}
use kaspa_python_sdk.Convert.ToDict.{
  UtxoEntryReference, TransactionInput, TransactionOutput, Transaction,
}

module _ (b : Backend) where
  open b use {Hash, SubnetworkId}

  abbrev pub amount : UtxoEntryReference b → ℕ
  amount reference = reference.utxo.amount

  -- The closure over the entries: the sum so far, and the inputs from this sequence number on.
  unfoldable pub collect_inputs :
      ℕ → ℕ → ℕ → List (UtxoEntryReference b) → ℕ × List (TransactionInput b)
  collect_inputs sig_op_count sequence total [] = (total, [])
  collect_inputs sig_op_count sequence total (reference ∷ entries) =
      let rest =
        collect_inputs sig_op_count (sequence + 1) ((total + amount reference) % 2 ^ 64) entries in
      (
        rest.0,
        record {
          previous_outpoint = reference.utxo.outpoint;
          signature_script = none;
          sequence = sequence;
          sig_op_count = sig_op_count;
          utxo = some reference;
        }
            ∷ rest.1,
      )

  -- `Transaction::new`, the conversion of a payment output and `SUBNETWORK_ID_NATIVE` are arguments.
  module _ {PaymentOutput : Type 0} (into : PaymentOutput → TransactionOutput b)
      (native : SubnetworkId) (new_transaction : NewTransaction b) where
    unfoldable pub create_transaction :
        List (UtxoEntryReference b)
        → List PaymentOutput
        → ℕ
        → Option (List ℕ)
        → Option ℕ
        → PyResult (Transaction b)
    create_transaction entries outputs priority_fee payload sig_op_count =
        let collected = collect_inputs (unwrap_or 1 sig_op_count) 0 0 entries in
        if ltb collected.0 priority_fee
        then err (fee_exceeds priority_fee collected.0)
        else map_err exception (
            new_transaction none 0 collected.1 (map into outputs) 0 native 0 (unwrap_or [] payload)
              0)
