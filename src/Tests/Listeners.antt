-- ===== src/Tests/Listeners.antt =====
-- The listener methods over numbered objects and events.
use kaspa_python_sdk.Prelude.{
  ℕ, ◌≡◌, refl, none, some, List, [], ◌∷◌, ◌++◌, ok, err, eq_of_nat, nat_beq, leb, if◌then◌else◌,
}
use kaspa_python_sdk.Listeners.Python.{Python}
use kaspa_python_sdk.Rpc.Events.{PyNotificationEvent, NotificationEvent, notification, EventTypes}
use kaspa_python_sdk.Rpc.Listeners as RpcListeners
use kaspa_python_sdk.Rpc.Removal as RpcRemoval
use kaspa_python_sdk.Rpc.Views as RpcViews
use kaspa_python_sdk.Processor.Events.{
  PyUtxoProcessorEvent, EventKinds, Casts, extract, from_py, is_single, parse_event_target_item,
  parse_event_targets,
}
use kaspa_python_sdk.Processor.Listeners as ProcListeners

-- Object 0 is the text "pending", object 1 a list of it twice; objects from 10 on are callable.
abbrev pub objects : Python
objects = record {
  Obj = ℕ;
  Kwargs = Unit {0};
  Raised = Unit {0};
  as_ptr = λ n. n;
  empty_kwargs = tt;
  call = λ f _ _. ok f;
  format_exception = λ _. none;
  join = λ _. "";
  is_callable = λ n. leb 10 n;
  extract_string = λ n. if nat_beq n 0 then some "pending" else none;
  try_iter = λ n. if nat_beq n 1 then some (ok 0 ∷ ok 0 ∷ []) else none;
}

abbrev pub types : EventTypes
types = record {
  EventType = ℕ;
  eq = eq_of_nat;
  block_added = 0;
  virtual_chain_changed = 1;
  finality_conflict = 2;
  finality_conflict_resolved = 3;
  utxos_changed = 4;
  sink_blue_score_changed = 5;
  virtual_daa_score_changed = 6;
  pruning_point_utxo_set_override = 7;
  new_block_template = 8;
  event_type_from_str = λ _. none;
  ctl_from_str = λ _. none;
}

abbrev pub kinds : EventKinds
kinds = record {
  EventKind = ℕ;
  eq = eq_of_nat;
  from_str = λ _. err "kind";
  all = 0;
  connect = 1;
  disconnect = 2;
  utxo_index_not_enabled = 3;
  sync_state = 4;
  server_status = 5;
  utxo_proc_start = 6;
  utxo_proc_stop = 7;
  utxo_proc_error = 8;
  daa_score_change = 9;
  pending = 10;
  reorg = 11;
  stasis = 12;
  maturity = 13;
  discovery = 14;
  balance = 15;
  error = 16;
}

abbrev pub casts : Casts objects
casts = record { cast = λ _. none; from_value = λ _. ok PyUtxoProcessorEvent.pending }

-- callback 11 listens to all events, callback 12 to new blocks
abbrev rpc_table : RpcListeners.Callbacks objects types
rpc_table =
    (NotificationEvent.all, record { callback = 11; args = some []; kwargs = some tt } ∷ [])
    ∷ (notification 0, record { callback = 12; args = some []; kwargs = some tt } ∷ [])
    ∷ []

-- callback 11 listens to all events, callback 12 to `pending`, which is event 10
abbrev pub table : ProcListeners.Callbacks objects casts kinds
table =
    (0, record { callback = 11; args = some []; kwargs = some tt } ∷ [])
    ∷ (10, record { callback = 12; args = some []; kwargs = some tt } ∷ [])
    ∷ []

two_targets : parse_event_targets objects casts kinds 1 ≡ ok (10 ∷ 10 ∷ [])
unfolding parse_event_targets is_single parse_event_target_item extract from_py
two_targets = refl

abbrev changes : List (RpcViews.Change objects types)
changes =
    RpcViews.adds PyNotificationEvent.block_added 13 [] none
    ∷ RpcViews.removes PyNotificationEvent.all (some 12)
    ∷ []

reached-after_example :
    RpcRemoval.reached objects types
      (RpcViews.after objects types changes rpc_table)
      (notification 0)
    ≡ RpcViews.views objects types changes
        (RpcRemoval.registered objects types rpc_table)
        NotificationEvent.all
      ++ RpcViews.views objects types changes
          (RpcRemoval.registered objects types rpc_table)
          (notification 0)
reached-after_example = RpcViews.reached-after objects types changes rpc_table (notification 0)
