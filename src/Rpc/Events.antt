-- ===== src/Rpc/Events.antt =====
-- The events of `RpcClient`: `PyNotificationEvent` and `NotificationEvent` of
-- src/rpc/wrpc/client.rs.
use kaspa_python_sdk.Prelude.{
  String, Bool, true, false, ◌≡◌, ◌↔◌, Option, none, some, Result, ok, err, PyResult, exception,
  map_err, PartialEq, ◌==◌, if◌then◌else◌, arith, eq_of_string,
}
use kaspa_python_sdk.Listeners.Python.{Python}

pub data PyNotificationEvent : Type 0 where
  all block_added virtual_chain_changed finality_conflict : PyNotificationEvent
  finality_conflict_resolved utxos_changed sink_blue_score_changed : PyNotificationEvent
  virtual_daa_score_changed pruning_point_utxo_set_override : PyNotificationEvent
  new_block_template connect disconnect : PyNotificationEvent

-- `Ctl` of workflow_rpc, which the notification task matches in full.
pub data Ctl : Type 0 where
  connect disconnect : Ctl

-- `EventType` of kaspa_notify, by the variants that the source names.
pub record EventTypes : Type 1 where
  pub EventType : Type 0
  pub eq : PartialEq EventType
  pub block_added : EventType
  pub virtual_chain_changed : EventType
  pub finality_conflict : EventType
  pub finality_conflict_resolved : EventType
  pub utxos_changed : EventType
  pub sink_blue_score_changed : EventType
  pub virtual_daa_score_changed : EventType
  pub pruning_point_utxo_set_override : EventType
  pub new_block_template : EventType
  -- `EventType::from_str` and `Ctl::from_str`
  pub event_type_from_str : String → Option EventType
  pub ctl_from_str : String → Option Ctl

pub data NotificationEvent (E : Type 0) : Type 0 where
  all : NotificationEvent E
  notification : E → NotificationEvent E
  rpc_ctl : Ctl → NotificationEvent E

abbrev pub ctl_beq : Ctl → Ctl → Bool
ctl_beq Ctl.connect Ctl.connect = true
ctl_beq Ctl.disconnect Ctl.disconnect = true
ctl_beq Ctl.connect Ctl.disconnect = false
ctl_beq Ctl.disconnect Ctl.connect = false

pub ctl_beq_iff : (a b : Ctl) → (ctl_beq a b ≡ true) ↔ (a ≡ b)
ctl_beq_iff a b = ground arith

-- The derived `PartialEq` of `NotificationEvent`.
abbrev pub event_beq : {E : Type 0} → PartialEq E → NotificationEvent E → NotificationEvent E → Bool
event_beq e NotificationEvent.all NotificationEvent.all = true
event_beq e (notification a) (notification b) = e.eq_test a b
event_beq e (rpc_ctl a) (rpc_ctl b) = ctl_beq a b
event_beq e _ _ = false

pub event_beq_iff :
    {E : Type 0} (e : PartialEq E) (a b : NotificationEvent E) → (event_beq e a b ≡ true) ↔ (a ≡ b)
event_beq_iff e NotificationEvent.all NotificationEvent.all = ground arith
event_beq_iff e (notification a) (notification b) = ground (arith, e.eq_test_iff a b)
event_beq_iff e (rpc_ctl a) (rpc_ctl b) = ground (arith, ctl_beq_iff a b)
event_beq_iff e _ _ = ground arith

instance abbrev pub event_eq : {E : Type 0} ⦃e : PartialEq E⦄ → PartialEq (NotificationEvent E)
event_eq ⦃e⦄ = record { eq_test = event_beq e; eq_test_iff = event_beq_iff e }

module _ (t : EventTypes) where
  open t use {EventType, event_type_from_str, ctl_from_str}

  -- `From<PyNotificationEvent> for NotificationEvent`
  unfoldable pub from_py : PyNotificationEvent → NotificationEvent EventType
  from_py PyNotificationEvent.all = NotificationEvent.all
  from_py PyNotificationEvent.block_added = notification t.block_added
  from_py PyNotificationEvent.virtual_chain_changed = notification t.virtual_chain_changed
  from_py PyNotificationEvent.finality_conflict = notification t.finality_conflict
  from_py PyNotificationEvent.finality_conflict_resolved = notification t.finality_conflict_resolved
  from_py PyNotificationEvent.utxos_changed = notification t.utxos_changed
  from_py PyNotificationEvent.sink_blue_score_changed = notification t.sink_blue_score_changed
  from_py PyNotificationEvent.virtual_daa_score_changed = notification t.virtual_daa_score_changed
  from_py PyNotificationEvent.pruning_point_utxo_set_override =
      notification t.pruning_point_utxo_set_override
  from_py PyNotificationEvent.new_block_template = notification t.new_block_template
  from_py PyNotificationEvent.connect = rpc_ctl Ctl.connect
  from_py PyNotificationEvent.disconnect = rpc_ctl Ctl.disconnect

  -- `FromStr for NotificationEvent`: control events come before notifications.
  unfoldable pub from_str : String → Result String (NotificationEvent EventType)
  from_str s = if s == "all" then ok NotificationEvent.all else elim (ctl_from_str s) [
    | some ctl ↦ ok (rpc_ctl ctl)
    | none ↦ elim (event_type_from_str s) [
      | some event ↦ ok (notification event)
      | none ↦ err "Invalid notification event type"
    ]
  ]

-- `FromPyObject for PyNotificationEvent`; the serde derive and the class cast are arguments.
module _ (py : Python) where
  open py use {Obj, extract_string}

  unfoldable pub extract :
      (String → Result String PyNotificationEvent)
      → (Obj → Option PyNotificationEvent)
      → Obj
      → PyResult PyNotificationEvent
  extract from_value cast obj = elim (extract_string obj) [
    | some s ↦ map_err exception (from_value s)
    | none ↦ elim (cast obj) [
      | some event ↦ ok event
      | none ↦ err (exception "Expected type `str` or `NotificationEvent`")
    ]
  ]
