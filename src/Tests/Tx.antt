-- ===== src/Tests/Tx.antt =====
-- Transactions from entries and their mass, at concrete inputs.
use kaspa_python_sdk.Prelude.{
  ℕ, ◌+◌, ◌≡◌, ◌≤◌, refl, true, none, List, [], ◌∷◌, ok, err, fee_exceeds, arith,
}
use kaspa_python_sdk.Convert.ToDict.{Transaction, TransactionInput}
use kaspa_python_sdk.Tx.Create.{create_transaction}
use kaspa_python_sdk.Tx.Inputs.{Spends, create_transaction-total_amount}
use kaspa_python_sdk.Tx.Mass.{
  Calculator, calculate_unsigned_transaction_mass, update_unsigned_transaction_mass,
  update_unsigned_transaction_mass-idempotent,
}
use kaspa_python_sdk.Tests.Convert.Objects.{objects}
use kaspa_python_sdk.Tests.Convert.RoundTrips.{reference, output, transaction, keep}

create_transaction-total_amount_example :
    (inputs : List (TransactionInput objects)) × Spends objects 1 (reference ∷ []) inputs
    × (create_transaction objects
          (λ o. o)
          []
          keep
          (reference ∷ [])
          (output ∷ [])
          100000001
          none
          none
        ≡ err (fee_exceeds 100000001 100000000))
create_transaction-total_amount_example =
    create_transaction-total_amount objects (λ o. o) [] keep (reference ∷ []) (output ∷ [])
      100000001 none none (omega arith)

abbrev calculator : Calculator objects
calculator = record {
  NetworkId = ℕ;
  calc_overall_mass = λ _ _ signatures. ok (2000 + signatures);
  calc_fee_for_mass = λ _ mass. mass;
  maximum_standard_transaction_mass = 100000;
}

abbrev updated : Transaction objects
updated = record transaction { mass = 2001 }

update_unsigned_transaction_mass-idempotent_example :
    (calculate_unsigned_transaction_mass objects calculator 0 updated none ≡ ok 2001)
    × (2001 ≤ 100000)
    × (update_unsigned_transaction_mass objects calculator 0 updated none ≡ ok (true, updated))
unfolding update_unsigned_transaction_mass
update_unsigned_transaction_mass-idempotent_example =
    update_unsigned_transaction_mass-idempotent objects calculator 0 transaction updated none
      (λ mass. refl) refl
