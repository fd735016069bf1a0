-- ===== src/Tests/Processor.antt =====
-- The notification task of `UtxoProcessor` over numbered objects and events.
use kaspa_python_sdk.Prelude.{
  ℕ, ◌≡◌, refl, true, false, none, some, [], ◌∷◌, ok, ◌==◌, eq_of_string, nat_beq, if◌then◌else◌,
  unwrap_or, String, Option, arith,
}
use kaspa_python_sdk.Processor.Task.{
  Wallet, Loop, payload, normalize_event_payload, flatten_record, with_record, is_record, run,
}
use kaspa_python_sdk.Processor.Draining.{HasDrained, run_drains}
use kaspa_python_sdk.Processor.Payload.{IsDict}
use kaspa_python_sdk.Processor.Lifecycle.{initial, Reach, Reach-settled}
use kaspa_python_sdk.Tests.Listeners.{objects, casts, kinds, table}

abbrev Dict : Type 0
Dict = String → Option ℕ

-- Object 5 is an event with the data 6, which is the dict of the record 8.
abbrev event_dict : Dict
event_dict key = if key == "data" then some 6 else if key == "type" then some 7 else none

abbrev data_dict : Dict
data_dict key = if key == "record" then some 8 else none

abbrev wallet : Wallet objects kinds
wallet = record {
  Notification = ℕ;
  event_kind = λ m. m;
  to_pyobject = λ _. ok 5;
  PyDict = Dict;
  cast_dict =
      λ o. if nat_beq o 5 then some event_dict else if nat_beq o 6 then some data_dict else none;
  of_dict = λ d. unwrap_or 0 (d "data");
  of_none = 0;
  get_item = λ d key. ok (d key);
  set_item = λ d key v. ok (λ j. if key == j then some v else d j);
}

wallet-IsDict : IsDict objects casts kinds wallet
wallet-IsDict = record {
  gets = λ d key. (d key, refl);
  sets = λ d key v. (_, refl, λ j. ground arith);
}

-- a stop request and two events wait
abbrev busy : Loop objects casts kinds wallet
busy = record { requests = 1; queue = 10 ∷ 9 ∷ []; closed = false; shutdown_requested = false }

run_drains_example :
    HasDrained objects casts kinds wallet table busy (run objects casts kinds wallet 4 table busy)
run_drains_example = run_drains objects casts kinds wallet table busy 4 (omega arith)

abbrev normal_dict : Dict
normal_dict j = if "data" == j then some 8 else event_dict j

pending_payload : payload objects casts kinds wallet 10 ≡ some normal_dict
unfolding payload normalize_event_payload flatten_record with_record is_record
pending_payload = refl

abbrev one : ℕ
one = 1

Reach-settled_example : Reach true initial (record initial { running = 3 })
Reach-settled_example = Reach-settled 3
