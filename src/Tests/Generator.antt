-- ===== src/Tests/Generator.antt =====
-- The constructor of `Generator` at concrete arguments: an int is a context, a float is positive.
use kaspa_python_sdk.Prelude.{
  ℕ, String, true, false, Option, none, some, List, Result, ok, PyResult, leb,
}
use kaspa_python_sdk.Convert.ToDict.{UtxoEntryReference}
use kaspa_python_sdk.Tx.Generator.{GeneratorBackend, PaymentDestination, ctor}
use kaspa_python_sdk.Tests.Convert.Objects.{Value, int, objects}

abbrev context_of : Value → Option ℕ
context_of (int n) = some n
context_of _ = none

abbrev pub generators : GeneratorBackend objects
generators = record {
  Float = ℕ;
  is_finite = λ _. true;
  is_nan = λ _. false;
  at_least_1e_8 = λ n. leb 1 n;
  display = λ _. "";
  PaymentOutput = String × ℕ;
  new_payment_output = λ address amount. (address, amount);
  NetworkId = ℕ;
  UtxoContext = ℕ;
  extract_context = context_of;
  extract_reference = λ _. none;
  extract_payment_output = λ _. none;
  extract_address = λ _. none;
  Fees = ℕ;
  fees_from = λ fee. fee;
  fees_none = 0;
}

abbrev from_list :
    ℕ
    → List (UtxoEntryReference objects)
    → Option (List (UtxoEntryReference objects))
    → String
    → ℕ
    → ℕ
    → PaymentDestination objects generators
    → Option ℕ
    → ℕ
    → Option (List ℕ)
    → Result String ℕ
from_list network_id _ _ _ sig_op_count _ _ _ _ _ = ok sig_op_count

abbrev from_context :
    ℕ
    → Option (List (UtxoEntryReference objects))
    → String
    → ℕ
    → ℕ
    → PaymentDestination objects generators
    → Option ℕ
    → ℕ
    → Option (List ℕ)
    → Result String ℕ
from_context context _ _ _ _ _ _ _ _ = ok context

abbrev make : Value → Option ℕ → Option ℕ → Option ℕ → PyResult ℕ
make entries network_id rate counts =
    ctor objects generators from_list from_context (λ n. ok n) entries "kaspa:c" network_id none
      none rate none none counts counts
