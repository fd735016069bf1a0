-- ===== src/Client/EntryLists.antt =====
-- The items of a `PyUtxoEntries` and its dict: src/consensus/client/utxo.rs.
use kaspa_python_sdk.Prelude.{List, map, ok, PyResult, String, Bool, Result, PartialEq}
use kaspa_python_sdk.Convert.Backend.{Backend}
use kaspa_python_sdk.Convert.ToDict.{UtxoEntryReference, reference_to_dict}
use kaspa_python_sdk.Client.Equality.{serialized_eq}

module _ (b : Backend) where
  open b use {PyDict, empty, set_item, of_dict, of_list}

  unfoldable pub get_items : List (UtxoEntryReference b) → List (UtxoEntryReference b)
  get_items entries = entries

  unfoldable pub set_items :
      List (UtxoEntryReference b) → List (UtxoEntryReference b) → List (UtxoEntryReference b)
  set_items entries value = value

  unfoldable pub to_dict : List (UtxoEntryReference b) → PyResult PyDict
  to_dict entries =
      let utxos = map (λ utxo_ref. of_dict (reference_to_dict b utxo_ref)) entries in
      ok (set_item empty "utxos" (of_list utxos))

  unfoldable pub eq {κ} :
      {Bytes : Type κ} ⦃same : PartialEq Bytes⦄
      → (List (UtxoEntryReference b) → Result String Bytes)
      → List (UtxoEntryReference b)
      → List (UtxoEntryReference b)
      → Bool
  eq serialize entries other = serialized_eq serialize entries other
