-- ===== src/Tests/Calls.antt =====
-- Calls of a node that refuses everything.
use kaspa_python_sdk.Prelude.{ℕ, ◌≡◌, ◌↔◌, String, some, List, ok, err, Result}
use kaspa_python_sdk.Rpc.Calls
use kaspa_python_sdk.Rpc.Calls.{Calls, interface_with_args}
use kaspa_python_sdk.Rpc.Addresses.{Names}
use kaspa_python_sdk.Rpc.Sent.{sent, Listed, interface_with_args-sent}
use kaspa_python_sdk.Tests.Convert.Objects.{Value, objects}
use kaspa_python_sdk.Tests.Requests.{messages, two}

abbrev serde : Calls objects
serde = record {
  Raw = ℕ;
  plain_from_pyobject = λ _ _. ok 0;
  args_from_pyobject = λ _ _. ok 1;
  Response = ℕ;
  to_pyobject = λ _. ok objects.of_none;
}

abbrev node : Calls.Request objects messages serde → Result String ℕ
node _ = err "refused"

interface_with_args-sent_example :
    ((addresses : List String)
      → (sent objects messages serde
            (interface_with_args objects messages serde node Calls.get_utxos_by_addresses two)
          ≡ some (Calls.utxos_by_addresses addresses))
        ↔ Listed objects messages serde two addresses)
    × ((addresses : List String)
        → (sent objects messages serde
              (interface_with_args objects messages serde node Calls.get_balances_by_addresses two)
            ≡ some (Calls.balances_by_addresses addresses))
          ↔ Listed objects messages serde two addresses)
    × ((address : String)
        → (sent objects messages serde
              (interface_with_args objects messages serde node Calls.get_balance_by_address two)
            ≡ some (Calls.balance_by_address address))
          ↔ ((item : Value) × (objects.get_item two "address" ≡ some item)
              × Names objects messages item address))
interface_with_args-sent_example = interface_with_args-sent objects messages serde node two
