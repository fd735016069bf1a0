-- ===== src/Tests/Convert/RoundTrips.antt =====
-- The round trips of one transaction and its parts.
use kaspa_python_sdk.Prelude.{
  ◌≡◌, refl, true, false, ◌⊎◌, none, some, [], ◌∷◌, ok, err, PyErr, arith,
}
use kaspa_python_sdk.Convert.Binary.{
  IsBadList, extract_binary, try_from_any, try_from_any-extract_binary,
}
use kaspa_python_sdk.Convert.ToDict.{
  UtxoEntry, UtxoEntryReference, TransactionInput, TransactionOutput, Transaction,
  transaction_to_dict,
}
use kaspa_python_sdk.Convert.FromDict.{NewTransaction, transaction_from_dict}
use kaspa_python_sdk.Convert.Entries.{IsEntry}
use kaspa_python_sdk.Convert.Parts.{IsInput}
use kaspa_python_sdk.Convert.Transactions.{IsTransaction, transaction_from_dict-transaction_to_dict}
use kaspa_python_sdk.Tests.Convert.Objects.{Value, items, int, cons, nil, objects, objects_lawful}

abbrev pub entry : UtxoEntry objects
entry = record {
  address = some "kaspa:a";
  outpoint = ("id", 3);
  amount = 100000000;
  script_public_key = (false, 32 ∷ 172 ∷ []);
  block_daa_score = 5000;
  is_coinbase = true;
}

abbrev pub reference : UtxoEntryReference objects
reference = record { utxo = entry }

abbrev input : TransactionInput objects
input = record {
  previous_outpoint = ("id", 3);
  signature_script = some (65 ∷ 1 ∷ []);
  sequence = 0;
  sig_op_count = 1;
  utxo = some reference;
}

abbrev pub output : TransactionOutput objects
output = record { value = 99990000; script_public_key = (true, 32 ∷ []) }

abbrev pub transaction : Transaction objects
transaction = record {
  id = "tx";
  version = 0;
  inputs = input ∷ [];
  outputs = output ∷ [];
  lock_time = 0;
  subnetwork_id = 0 ∷ [];
  gas = 0;
  payload = 7 ∷ [];
  mass = 2000;
}

abbrev pub keep : NewTransaction objects
keep id version inputs outputs lock_time subnetwork_id gas payload mass = ok (record {
  id = elim id [ some h ↦ h | none ↦ "" ];
  version = version;
  inputs = inputs;
  outputs = outputs;
  lock_time = lock_time;
  subnetwork_id = subnetwork_id;
  gas = gas;
  payload = payload;
  mass = mass;
})

pub entry_fits : IsEntry objects objects_lawful entry
entry_fits = record { amount_u64 = omega arith; block_daa_score_u64 = omega arith }

input_fits : IsInput objects objects_lawful input
input_fits = record {
  sequence_u64 = omega arith;
  sig_op_count_u8 = omega arith;
  utxo_fits = entry_fits;
}

transaction_fits : IsTransaction objects objects_lawful transaction
transaction_fits = record {
  version_u16 = omega arith;
  lock_time_u64 = omega arith;
  gas_u64 = omega arith;
  mass_u64 = omega arith;
  inputs_fit = (input_fits, tt);
  outputs_fit = (omega arith, tt);
}

transaction_from_dict-transaction_to_dict_example :
    transaction_from_dict objects keep (transaction_to_dict objects transaction) ≡ ok transaction
transaction_from_dict-transaction_to_dict_example =
    transaction_from_dict-transaction_to_dict objects objects_lawful keep transaction (λ tx. refl)
      transaction_fits

-- a list with an item that is no byte
abbrev bad_list : Value
bad_list = items (cons (int 1) (cons (int 256) nil))

try_from_any-extract_binary_example :
    ((e : PyErr) × IsBadList objects bad_list e
      × (try_from_any objects bad_list ≡ none)
      × (extract_binary objects bad_list ≡ err e))
    ⊎ (((e : PyErr) → ¬ IsBadList objects bad_list e)
        × (try_from_any objects bad_list ≡ some (extract_binary objects bad_list)))
try_from_any-extract_binary_example = try_from_any-extract_binary objects bad_list
