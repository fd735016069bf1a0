-- ===== src/Tests/Client.antt =====
-- Entry lists and addresses over the objects of the conversions.
use kaspa_python_sdk.Prelude.{
  ℕ, ◌≡◌, ◌↔◌, true, false, none, some, List, [], ◌∷◌, ok, count_if, contains, String, ◌==◌,
  eq_of_string, if◌then◌else◌, Option,
}
use kaspa_python_sdk.Convert.ToDict.{UtxoEntryReference, TransactionInput}
use kaspa_python_sdk.Client.UtxoEntries.{sort, amount, AreSorted, of_amount, sort-of_amount}
use kaspa_python_sdk.Client.Addresses.{addresses}
use kaspa_python_sdk.Client.Holders.{AnyHasAddress, addresses_iff}
use kaspa_python_sdk.Tests.Convert.Objects.{objects}

abbrev reference : Option String → ℕ → UtxoEntryReference objects
reference address amount = record {
  utxo = record {
    address = address;
    outpoint = ("00", 0);
    amount = amount;
    script_public_key = (false, []);
    block_daa_score = 1;
    is_coinbase = false;
  };
}

abbrev three : List (UtxoEntryReference objects)
three = reference none 5 ∷ reference (some "a") 2 ∷ reference (some "b") 5 ∷ []

sort-of_amount_example :
    AreSorted objects (sort objects three)
    × ((n : ℕ) → of_amount objects n (sort objects three) ≡ of_amount objects n three)
    × (amount objects (sort objects three) ≡ amount objects three)
sort-of_amount_example = sort-of_amount objects three

abbrev input : Option String → TransactionInput objects
input address = record {
  previous_outpoint = ("00", 0);
  signature_script = none;
  sequence = 0;
  sig_op_count = 1;
  utxo = some (reference address 5);
}

-- two inputs of one address, and one whose address is that of its script
abbrev inputs : List (TransactionInput objects)
inputs = input (some "a") ∷ input none ∷ input (some "a") ∷ []

addresses_iff_example :
    ((contains (addresses objects eq_of_string ℕ (λ _ _. ok "s") 0 inputs) "s" ≡ true)
      ↔ AnyHasAddress objects eq_of_string ℕ (λ _ _. ok "s") 0 inputs "s")
    × (count_if (λ a. a == "s") (addresses objects eq_of_string ℕ (λ _ _. ok "s") 0 inputs) ≡ (
        if contains (addresses objects eq_of_string ℕ (λ _ _. ok "s") 0 inputs) "s" then 1 else 0))
addresses_iff_example = addresses_iff objects eq_of_string ℕ (λ _ _. ok "s") 0 inputs "s"
