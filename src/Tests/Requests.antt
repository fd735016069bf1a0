-- ===== src/Tests/Requests.antt =====
-- Requests over the objects of the conversions: a number is an `Address` object.
use kaspa_python_sdk.Prelude.{ℕ, ◌≡◌, ◌≢◌, refl, true, [], ok, err, raised, PyResult, String}
use kaspa_python_sdk.Convert.ToDict.{Transaction}
use kaspa_python_sdk.Rpc.Requests.{Messages, SubmitTransactionRequest, submit_transaction}
use kaspa_python_sdk.Rpc.Orphans.{submit_transaction-allow_orphan}
use kaspa_python_sdk.Tests.Convert.Objects.{Value, Fields, objects, objects_lawful}
use kaspa_python_sdk.Tests.Convert.Objects as Objects

abbrev address_object : Value → PyResult String
address_object (Objects.int _) = ok "kaspa:a"
address_object _ = err (raised "TypeError")

abbrev bare : Transaction objects
bare = record {
  id = "00";
  version = 0;
  inputs = [];
  outputs = [];
  lock_time = 0;
  subnetwork_id = [];
  gas = 0;
  payload = [];
  mass = 0;
}

abbrev pub messages : Messages objects
messages = record {
  extract_address = address_object;
  extract_transaction = λ _. ok bare;
  item_of = λ _ key. err (raised key);
  RpcHeader = ℕ;
  RpcTransactions = ℕ;
  header_from_pyobject = λ _. ok 0;
  transactions_from_pyobject = λ _. ok 0;
  RpcTransactionInput = ℕ;
  RpcTransactionOutput = ℕ;
  input_into = λ _. 0;
  output_into = λ _. 0;
  display = λ _. "";
  warn = ok tt;
}

abbrev pub two : Fields
two =
    Objects.field "addresses"
      (Objects.items
        (Objects.cons (Objects.int 1) (Objects.cons (Objects.text "kaspa:b") Objects.nil)))
      Objects.end

abbrev request : Fields
request = Objects.field "transaction" Objects.null Objects.end

submit_transaction-allow_orphan_example :
    (submit_transaction objects messages (
        Objects.field "allow_orphan" Objects.null
          (Objects.field "allowOrphan" (Objects.bool true) request))
      ≡ submit_transaction objects messages
          (Objects.field "allowOrphan" (Objects.bool true) request))
    × (submit_transaction objects messages (Objects.field "allow_orphan" Objects.null request)
        ≡ submit_transaction objects messages (Objects.field "allowOrphan" Objects.null request))
    × ((r : SubmitTransactionRequest objects messages)
        → submit_transaction objects messages request ≢ ok r)
submit_transaction-allow_orphan_example =
    submit_transaction-allow_orphan objects messages objects_lawful request Objects.null
      (Objects.bool true) refl refl refl
