-- ===== src/Tx/Inputs.antt =====
-- The inputs and the fee test of `create_transaction`.
use kaspa_python_sdk.Prelude.{
  ℕ, ◌+◌, ◌%◌, ◌^◌, ◌<◌, ◌≡◌, ◌∙◌, refl, ap, Option, none, some, List, [], ◌∷◌, map, err, exception,
  fee_exceeds, map_err, unwrap_or, leb, if◌then◌else◌, arith,
}
use kaspa_python_sdk.Convert.Backend.{Backend}
use kaspa_python_sdk.Convert.FromDict.{NewTransaction}
use kaspa_python_sdk.Convert.ToDict.{UtxoEntryReference, TransactionInput, TransactionOutput}
use kaspa_python_sdk.Tx.Create.{amount, collect_inputs, create_transaction}

module _ (b : Backend) where
  open b use {Hash, SubnetworkId}

  abbrev pub total_amount : List (UtxoEntryReference b) → ℕ
  total_amount [] = 0
  total_amount (reference ∷ entries) = amount b reference + total_amount entries

  -- the numbers of the elements, from the given one on
  abbrev pub numbered_from : ℕ → List (UtxoEntryReference b) → List ℕ
  numbered_from k [] = []
  numbered_from k (reference ∷ entries) = k ∷ numbered_from (k + 1) entries

  collect_inputs-total :
      (sig_op_count sequence total : ℕ) (entries : List (UtxoEntryReference b))
      → total + total_amount entries < 2 ^ 64
      → (collect_inputs b sig_op_count sequence total entries).0 ≡ total + total_amount entries
  unfolding collect_inputs
  collect_inputs-total sig_op_count sequence total [] h = omega arith
  collect_inputs-total sig_op_count sequence total (reference ∷ entries) h =
      let small : (total + amount b reference) % 2 ^ 64 ≡ total + amount b reference =
        omega arith in
      rw small (
        collect_inputs-total sig_op_count (sequence + 1) (total + amount b reference) entries
          (omega arith)
        ∙ omega arith)

  fits :
      (entries : List (UtxoEntryReference b)) (sig_op_count : ℕ)
      → total_amount entries < 2 ^ 64
      → (collect_inputs b sig_op_count 0 0 entries).0 ≡ total_amount entries
  fits entries sig_op_count small =
      collect_inputs-total sig_op_count 0 0 entries (omega arith) ∙ omega arith

  collect_inputs-utxo :
      (sig_op_count sequence total : ℕ) (entries : List (UtxoEntryReference b))
      → map (λ i. i.utxo) (collect_inputs b sig_op_count sequence total entries).1
        ≡ map some entries
  unfolding collect_inputs
  collect_inputs-utxo sig_op_count sequence total [] = refl
  collect_inputs-utxo sig_op_count sequence total (reference ∷ entries) =
      ap (◌∷◌ (some reference)) (
        collect_inputs-utxo sig_op_count (sequence + 1) ((total + amount b reference) % 2 ^ 64)
          entries)

  collect_inputs-sequence :
      (sig_op_count sequence total : ℕ) (entries : List (UtxoEntryReference b))
      → map (λ i. i.sequence) (collect_inputs b sig_op_count sequence total entries).1
        ≡ numbered_from sequence entries
  unfolding collect_inputs
  collect_inputs-sequence sig_op_count sequence total [] = refl
  collect_inputs-sequence sig_op_count sequence total (reference ∷ entries) = ap (◌∷◌ sequence) (
      collect_inputs-sequence sig_op_count (sequence + 1) ((total + amount b reference) % 2 ^ 64)
        entries)

  collect_inputs-fields :
      (sig_op_count sequence total : ℕ) (entries : List (UtxoEntryReference b))
      → let inputs = (collect_inputs b sig_op_count sequence total entries).1 in
        (map (λ i. i.previous_outpoint) inputs ≡ map (λ r. r.utxo.outpoint) entries)
        × (map (λ i. i.signature_script) inputs ≡ map (λ r. none) entries)
        × (map (λ i. i.sig_op_count) inputs ≡ map (λ r. sig_op_count) entries)
  unfolding collect_inputs
  collect_inputs-fields sig_op_count sequence total [] = (refl, refl, refl)
  collect_inputs-fields sig_op_count sequence total (reference ∷ entries) =
      let (outpoints, scripts, counts) =
        collect_inputs-fields sig_op_count (sequence + 1) ((total + amount b reference) % 2 ^ 64)
          entries in
      (
        ap (◌∷◌ reference.utxo.outpoint) outpoints,
        ap (◌∷◌ none) scripts,
        ap (◌∷◌ sig_op_count) counts,
      )

  -- Unsigned inputs that spend the entries, one for each in their order, numbered from 0 on, with so
  -- many signature operations each.
  abbrev pub Spends : ℕ → List (UtxoEntryReference b) → List (TransactionInput b) → Type 0
  Spends sig_op_count entries inputs =
      (map (λ i. i.utxo) inputs ≡ map some entries)
      × (map (λ i. i.sequence) inputs ≡ numbered_from 0 entries)
      × (map (λ i. i.previous_outpoint) inputs ≡ map (λ r. r.utxo.outpoint) entries)
      × (map (λ i. i.signature_script) inputs ≡ map (λ r. none) entries)
      × (map (λ i. i.sig_op_count) inputs ≡ map (λ r. sig_op_count) entries)

  collect_inputs-Spends :
      (sig_op_count : ℕ) (entries : List (UtxoEntryReference b))
      → Spends sig_op_count entries (collect_inputs b sig_op_count 0 0 entries).1
  collect_inputs-Spends sig_op_count entries =
      let (outpoints, scripts, counts) = collect_inputs-fields sig_op_count 0 0 entries in
      (
        collect_inputs-utxo sig_op_count 0 0 entries,
        collect_inputs-sequence sig_op_count 0 0 entries,
        outpoints,
        scripts,
        counts,
      )

  module _ {PaymentOutput : Type 0} (into : PaymentOutput → TransactionOutput b)
      (native : SubnetworkId) (new_transaction : NewTransaction b) where
    -- If the amounts of the entries sum to less than 2 ^ 64, `create_transaction` refuses a priority
    -- fee above their sum with an error that names both, and otherwise is `Transaction::new` on
    -- unsigned inputs and on the outputs, with an empty payload where none is given. There is an
    -- input for each entry, in order, that spends its outpoint, holds the entry, is numbered by its
    -- place from 0 on, and has as many signature operations as are given, or one.
    pub create_transaction-total_amount :
        (entries : List (UtxoEntryReference b)) (outputs : List PaymentOutput) (priority_fee : ℕ)
        (payload : Option (List ℕ)) (sig_op_count : Option ℕ)
        → total_amount entries < 2 ^ 64
        → (inputs : List (TransactionInput b)) × Spends (unwrap_or 1 sig_op_count) entries inputs
          × (create_transaction b into native new_transaction entries outputs priority_fee payload
                sig_op_count
              ≡ (if leb priority_fee (total_amount entries)
                  then map_err exception (
                      new_transaction none 0 inputs
                        (map into outputs)
                        0
                        native
                        0
                        (unwrap_or [] payload)
                        0)
                  else err (fee_exceeds priority_fee (total_amount entries))))
    unfolding create_transaction
    create_transaction-total_amount entries outputs priority_fee payload sig_op_count small = (
      (collect_inputs b (unwrap_or 1 sig_op_count) 0 0 entries).1,
      collect_inputs-Spends (unwrap_or 1 sig_op_count) entries,
      rw (fits entries (unwrap_or 1 sig_op_count) small) (ground arith),
    )
