-- ===== src/Rpc/Node.antt =====
-- What the notification task and the subscriptions of `RpcClient` call: `KaspaRpcClient`, its
-- notifications, and the Python objects made from them.
use kaspa_python_sdk.Prelude.{String, Bool, Option, List, Result}
use kaspa_python_sdk.Listeners.Python.{Python}
use kaspa_python_sdk.Rpc.Events.{EventTypes, Ctl}

-- `Scope` of kaspa_notify, by the variants that the source names.
pub data Scope (A : Type 0) : Type 0 where
  utxos_changed : List A → Scope A
  virtual_chain_changed : (include_accepted_transaction_ids : Bool) → Scope A
  block_added finality_conflict finality_conflict_resolved new_block_template : Scope A
  pruning_point_utxo_set_override sink_blue_score_changed virtual_daa_score_changed : Scope A

pub record Node (py : Python) (t : EventTypes) : Type 1 where
  -- the client with all it keeps, and `ListenerId`
  pub Client : Type 0
  pub ListenerId : Type 0
  pub Address : Type 0
  pub url : Client → Option String
  pub register_new_listener : Client → ListenerId × Client
  pub unregister_listener : Client → ListenerId → Result String Client
  pub start_notify : Client → ListenerId → Scope Address → Result String Client
  pub stop_notify : Client → ListenerId → Scope Address → Result String Client
  -- `kaspa_rpc_core::Notification`; of a `UtxosChanged` the added and the removed entries
  pub Notification : Type 0
  pub event_type : Notification → t.EventType
  pub event_type_string : t.EventType → String
  pub ctl_string : Ctl → String
  pub utxos_changed : Notification → Option (Option py.Obj × Option py.Obj)
  -- `PyNotification::from(..).to_pyobject(py)`
  pub to_pyobject : Notification → Option py.Obj
  -- a `PyDict` of these items, text and an optional text as its values
  pub dict : List (String × py.Obj) → py.Obj
  pub text : String → py.Obj
  pub text_or_none : Option String → py.Obj
