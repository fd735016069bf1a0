-- ===== src/Tests/Editing.antt =====
-- Calls on one transaction, and lists of entries.
use kaspa_python_sdk.Prelude.{
  ◌≡◌, refl, false, List, [], ◌∷◌, ◌++◌, map, ok, unwrap_or, eq_of_nat, eq_of_string, nat_beq,
  if◌then◌else◌,
}
use kaspa_python_sdk.Convert.ToDict.{UtxoEntryReference, reference_to_dict}
use kaspa_python_sdk.Client.Transaction.{Consensus}
use kaspa_python_sdk.Client.Transaction
use kaspa_python_sdk.Client.Editing.{
  Call, finalize, set_version, set_gas, set_subnetwork_id, set_inputs, last_some, run, sets_inputs,
  sets_outputs, sets_version, sets_lock_time, sets_gas, sets_mass, sets_subnetwork_id, sets_payload,
  run-getters, get_id-finalize,
}
use kaspa_python_sdk.Tx.Generator.{parse_generator_source, utxo_entries}
use kaspa_python_sdk.Tx.Sources.{
  AreNoInstances, more_items, no_items, flat, nested, parse_generator_source-AllStandFor,
}
use kaspa_python_sdk.Convert.Entries.{nested_dict}
use kaspa_python_sdk.Tests.Convert.Objects.{dict, objects, objects_lawful}
use kaspa_python_sdk.Tests.Convert.RoundTrips.{transaction, reference, entry_fits}
use kaspa_python_sdk.Tests.Generator.{generators}

abbrev consensus : Consensus objects
consensus = record {
  tx_id = λ tx. if nat_beq tx.version 1 then "one" else "other";
  subnetwork_eq = λ _ _. false;
  subnetwork_id_coinbase = 1 ∷ [];
}

abbrev calls : List (Call objects)
calls =
    set_version 5 ∷ finalize ∷ set_inputs [] ∷ set_version 1 ∷ set_subnetwork_id "" ∷ set_gas 7 ∷ []

run-getters_example :
    (Transaction.get_inputs objects consensus (run objects consensus calls transaction)
      ≡ ok (unwrap_or transaction.inputs (last_some (map (sets_inputs objects consensus) calls))))
    × (Transaction.get_outputs objects consensus (run objects consensus calls transaction)
        ≡ ok (
            unwrap_or transaction.outputs (last_some (map (sets_outputs objects consensus) calls))))
    × (Transaction.get_version objects consensus (run objects consensus calls transaction)
        ≡ unwrap_or 0 (last_some (map (sets_version objects consensus) calls)))
    × (Transaction.get_lock_time objects consensus (run objects consensus calls transaction)
        ≡ unwrap_or 0 (last_some (map (sets_lock_time objects consensus) calls)))
    × (Transaction.get_gas objects consensus (run objects consensus calls transaction)
        ≡ unwrap_or 0 (last_some (map (sets_gas objects consensus) calls)))
    × (Transaction.get_mass objects consensus (run objects consensus calls transaction)
        ≡ unwrap_or 2000 (last_some (map (sets_mass objects consensus) calls)))
    × (Transaction.get_subnetwork objects consensus (run objects consensus calls transaction)
        ≡ objects.subnetwork_to_hex (
            unwrap_or transaction.subnetwork_id
              (last_some (map (sets_subnetwork_id objects consensus) calls))))
    × (Transaction.get_payload objects consensus (run objects consensus calls transaction)
        ≡ objects.to_hex (
            unwrap_or transaction.payload (last_some (map (sets_payload objects consensus) calls))))
run-getters_example = run-getters objects consensus calls transaction

get_id-finalize_example :
    ((Transaction.finalize objects consensus
        (run objects consensus (set_version 1 ∷ []) transaction)).1
      ≡ ok (consensus.tx_id (run objects consensus (set_version 1 ∷ []) transaction)))
    × (Transaction.get_id objects consensus (
          run objects consensus
            ((set_version 1 ∷ []) ++ finalize ∷ set_version 2 ∷ set_gas 7 ∷ [])
            transaction)
        ≡ consensus.tx_id (run objects consensus (set_version 1 ∷ []) transaction))
get_id-finalize_example =
    get_id-finalize objects consensus (set_version 1 ∷ []) (set_version 2 ∷ set_gas 7 ∷ [])
      transaction refl

abbrev no_instances : AreNoInstances objects generators
no_instances = record { list_no_context = λ _. refl; dict_no_reference = λ _. refl }

abbrev two : List (UtxoEntryReference objects)
two = reference ∷ reference ∷ []

parse_generator_source-AllStandFor_example :
    parse_generator_source objects generators (
      objects.of_list (
        dict (reference_to_dict objects reference)
        ∷ dict (nested_dict objects objects_lawful reference)
        ∷ []))
    ≡ ok (utxo_entries two)
parse_generator_source-AllStandFor_example =
    parse_generator_source-AllStandFor objects objects_lawful generators no_instances two
      (dict (reference_to_dict objects reference)
        ∷ dict (nested_dict objects objects_lawful reference)
        ∷ [])
      (more_items (flat entry_fits) (more_items (nested entry_fits) no_items))
