-- ===== src/Processor/Events.antt =====
-- The events of `UtxoProcessor`: `PyUtxoProcessorEvent` of src/wallet/core/utxo/processor.rs, and
-- the targets that its listener methods parse.
use kaspa_python_sdk.Prelude.{
  String, Bool, true, false, Option, none, some, List, [], ◌∷◌, Result, ok, err, PyErr, PyResult,
  exception, map_err, map_ok, try_map, PartialEq, ◌==◌, if◌then◌else◌, eq_of_string, ◌>>=◌,
}
use kaspa_python_sdk.Listeners.Python.{Python}

pub data PyUtxoProcessorEvent : Type 0 where
  all connect disconnect utxo_index_not_enabled : PyUtxoProcessorEvent
  sync_state server_status utxo_proc_start utxo_proc_stop : PyUtxoProcessorEvent
  utxo_proc_error daa_score_change pending reorg : PyUtxoProcessorEvent
  stasis maturity discovery balance : PyUtxoProcessorEvent
  error : PyUtxoProcessorEvent

-- `EventKind` of kaspa_wallet_core, by the variants that the source names.
pub record EventKinds : Type 1 where
  pub EventKind : Type 0
  pub eq : PartialEq EventKind
  pub from_str : String → Result String EventKind
  pub all : EventKind
  pub connect : EventKind
  pub disconnect : EventKind
  pub utxo_index_not_enabled : EventKind
  pub sync_state : EventKind
  pub server_status : EventKind
  pub utxo_proc_start : EventKind
  pub utxo_proc_stop : EventKind
  pub utxo_proc_error : EventKind
  pub daa_score_change : EventKind
  pub pending : EventKind
  pub reorg : EventKind
  pub stasis : EventKind
  pub maturity : EventKind
  pub discovery : EventKind
  pub balance : EventKind
  pub error : EventKind

module _ (k : EventKinds) where
  open k use {EventKind}

  -- `From<PyUtxoProcessorEvent> for EventKind`
  unfoldable pub from_py : PyUtxoProcessorEvent → EventKind
  from_py PyUtxoProcessorEvent.all = k.all
  from_py PyUtxoProcessorEvent.connect = k.connect
  from_py PyUtxoProcessorEvent.disconnect = k.disconnect
  from_py PyUtxoProcessorEvent.utxo_index_not_enabled = k.utxo_index_not_enabled
  from_py PyUtxoProcessorEvent.sync_state = k.sync_state
  from_py PyUtxoProcessorEvent.server_status = k.server_status
  from_py PyUtxoProcessorEvent.utxo_proc_start = k.utxo_proc_start
  from_py PyUtxoProcessorEvent.utxo_proc_stop = k.utxo_proc_stop
  from_py PyUtxoProcessorEvent.utxo_proc_error = k.utxo_proc_error
  from_py PyUtxoProcessorEvent.daa_score_change = k.daa_score_change
  from_py PyUtxoProcessorEvent.pending = k.pending
  from_py PyUtxoProcessorEvent.reorg = k.reorg
  from_py PyUtxoProcessorEvent.stasis = k.stasis
  from_py PyUtxoProcessorEvent.maturity = k.maturity
  from_py PyUtxoProcessorEvent.discovery = k.discovery
  from_py PyUtxoProcessorEvent.balance = k.balance
  from_py PyUtxoProcessorEvent.error = k.error

  unfoldable pub parse_event_kind : String → PyResult EventKind
  parse_event_kind s = if s == "all" then ok k.all else map_err exception (k.from_str s)

-- What Python hands in, seen through the class cast and the serde derive of the event.
pub record Casts (py : Python) : Type 0 where
  pub cast : py.Obj → Option PyUtxoProcessorEvent
  pub from_value : String → Result String PyUtxoProcessorEvent

abbrev target_error : PyErr
target_error = exception "event target must be str, UtxoProcessorEvent, or a sequence of those"

module _ (py : Python) (c : Casts py) (k : EventKinds) where
  open py use {Obj, extract_string, try_iter}
  open c use {cast, from_value}
  open k use {EventKind}

  -- `FromPyObject for PyUtxoProcessorEvent`
  unfoldable pub extract : Obj → PyResult PyUtxoProcessorEvent
  extract obj = elim (extract_string obj) [
    | some s ↦ map_err exception (from_value s)
    | none ↦ elim (cast obj) [
      | some event ↦ ok event
      | none ↦ err (exception "Expected type `str` or `UtxoProcessorEvent`")
    ]
  ]

  unfoldable pub parse_event_target_item : Obj → PyResult EventKind
  unfolding extract
  parse_event_target_item value = elim (extract value) [
    | ok event ↦ ok (from_py k event)
    | err _ ↦ elim (extract_string value) [
      | some s ↦ parse_event_kind k s
      | none ↦ err target_error
    ]
  ]

  -- `extract::<String>().is_ok() || cast::<PyUtxoProcessorEvent>().is_ok()`
  unfoldable pub is_single : Obj → Bool
  is_single value = elim (extract_string value) [
    | some _ ↦ true
    | none ↦ elim (cast value) [ some _ ↦ true | none ↦ false ]
  ]

  -- One item of a sequence: a raise of the iterator goes through, any other error is replaced.
  sequence_item : Result PyErr Obj → PyResult EventKind
  sequence_item item = do value ← item; map_err (λ _. target_error) (parse_event_target_item value)

  unfoldable pub parse_event_targets : Obj → PyResult (List EventKind)
  unfolding sequence_item is_single
  parse_event_targets value =
      if is_single value
      then map_ok (λ event. event ∷ []) (parse_event_target_item value)
      else elim (try_iter value) [
        | some items ↦ try_map sequence_item items
        | none ↦ err target_error
      ]
