-- ===== src/Convert/Transactions.antt =====
-- The round trip of a whole transaction through its dict.
use kaspa_python_sdk.Prelude.{
  ℕ, ◌<◌, ◌^◌, some, List, [], ◌∷◌, map, ◌≡◌, refl, ok, arith, eq_of_string, try_map,
}
use kaspa_python_sdk.Convert.Backend.{Backend, IsLawful}
use kaspa_python_sdk.Convert.ToDict.{
  TransactionInput, TransactionOutput, Transaction, input_to_dict, output_to_dict,
  transaction_to_dict,
}
use kaspa_python_sdk.Convert.FromDict.{
  item_input, item_output, payload_of, NewTransaction, transaction_from_dict,
}
use kaspa_python_sdk.Convert.Parts.{
  output_from_dict-output_to_dict, IsInput, input_from_dict-input_to_dict,
}

module _ (b : Backend) (law : IsLawful b) where
  abbrev pub AllInputs : List (TransactionInput b) → Type 0
  AllInputs [] = Unit {0}
  AllInputs (i ∷ is) = IsInput b law i × AllInputs is

  abbrev pub AllOutputs : List (TransactionOutput b) → Type 0
  AllOutputs [] = Unit {0}
  AllOutputs (o ∷ os) = (o.value < 2 ^ 64) × AllOutputs os

  inputs_back :
      (is : List (TransactionInput b))
      → AllInputs is
      → try_map (item_input b) (map (λ i. b.of_dict (input_to_dict b i)) is) ≡ ok is
  unfolding item_input
  inputs_back [] h = refl
  inputs_back (i ∷ is) h =
      rw (law.dict (input_to_dict b i))
        (rw (input_from_dict-input_to_dict b law i h.0) (rw (inputs_back is h.1)))

  outputs_back :
      (os : List (TransactionOutput b))
      → AllOutputs os
      → try_map (item_output b) (map (λ o. b.of_dict (output_to_dict b o)) os) ≡ ok os
  unfolding item_output
  outputs_back [] h = refl
  outputs_back (o ∷ os) h =
      rw (law.dict (output_to_dict b o))
        (rw (output_from_dict-output_to_dict b law o h.0) (rw (outputs_back os h.1)))

  payload_back : (bytes : List ℕ) → payload_of b (b.to_hex bytes) ≡ ok bytes
  unfolding payload_of
  payload_back bytes = ground (arith, law.to_hex-empty bytes, law.vec_from_hex-to_hex bytes)

  -- `Transaction::new` keeps what it is given, the id included.
  abbrev pub Keeps : NewTransaction b → Type 0
  Keeps new_transaction =
      (tx : Transaction b)
      → new_transaction (some tx.id) tx.version tx.inputs tx.outputs tx.lock_time tx.subnetwork_id
          tx.gas tx.payload tx.mass
        ≡ ok tx

  pub record IsTransaction (tx : Transaction b) : Type 0 where
    pub version_u16 : tx.version < 2 ^ 16
    pub lock_time_u64 : tx.lock_time < 2 ^ 64
    pub gas_u64 : tx.gas < 2 ^ 64
    pub mass_u64 : tx.mass < 2 ^ 64
    pub inputs_fit : AllInputs tx.inputs
    pub outputs_fit : AllOutputs tx.outputs

  -- If the Python objects and the printers are lawful, `Transaction::new` keeps its arguments and
  -- all integers fit, `from_dict` after `to_dict` is the transaction itself.
  pub transaction_from_dict-transaction_to_dict :
      (new_transaction : NewTransaction b) (tx : Transaction b)
      → Keeps new_transaction
      → IsTransaction tx
      → transaction_from_dict b new_transaction (transaction_to_dict b tx) ≡ ok tx
  unfolding transaction_from_dict transaction_to_dict
  transaction_from_dict-transaction_to_dict new_transaction tx keeps h =
      let (bytes, decoded, made) = law.subnetwork tx.subnetwork_id in
      simp (
        law.get-set,
        law.string,
        law.hash,
        law.u16 tx.version h.version_u16,
        law.u64 tx.lock_time h.lock_time_u64,
        decoded,
        made,
        law.u64 tx.gas h.gas_u64,
        payload_back,
        law.u64 tx.mass h.mass_u64,
        law.list,
        inputs_back tx.inputs h.inputs_fit,
        outputs_back tx.outputs h.outputs_fit,
        keeps tx,
      )
