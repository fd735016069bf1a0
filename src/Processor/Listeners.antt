-- ===== src/Processor/Listeners.antt =====
-- The listener methods of `UtxoProcessor` (src/wallet/core/utxo/processor.rs). Each returns the new
-- table beside its result.
use kaspa_python_sdk.Prelude.{
  Bool, not, ◌&&◌, Option, none, some, List, [], ◌∷◌, if◌then◌else◌, unwrap_or, ok, err, PyResult,
  exception,
}
use kaspa_python_sdk.Listeners.Python.{Python}
use kaspa_python_sdk.Listeners.Callback
use kaspa_python_sdk.Listeners.Callback.{PyCallback, callback_ptr_eq}
use kaspa_python_sdk.Listeners.Table.{push, remove, retain_at, retain_all, notification_callbacks}
use kaspa_python_sdk.Processor.Events.{Casts, EventKinds, parse_event_targets}

module _ (py : Python) (c : Casts py) (k : EventKinds) where
  open py use {Obj, Kwargs, empty_kwargs, is_callable}
  open k use {EventKind}

  abbrev pub Callbacks : Type 0
  Callbacks = List (EventKind × List (PyCallback py))

  -- `notification_callbacks`
  unfoldable pub callbacks_for : Callbacks → EventKind → Option (List (PyCallback py))
  callbacks_for callbacks event = notification_callbacks ⦃e = k.eq⦄ k.all callbacks event

  -- `for target in targets { callbacks.entry(target).or_default().push(py_callback.clone()) }`
  unfoldable pub push_each : Callbacks → List EventKind → PyCallback py → Callbacks
  push_each callbacks [] entry = callbacks
  push_each callbacks (target ∷ targets) entry =
      push_each (push ⦃e = k.eq⦄ callbacks target entry) targets entry

  -- the events and the callback that `add_event_listener` registers
  unfoldable pub listener_of : Obj → Option Obj → PyResult (List EventKind × Obj)
  listener_of event_or_callback (some callback) =
      elim (parse_event_targets py c k event_or_callback) [
        | ok targets ↦ ok (targets, callback)
        | err e ↦ err e
      ]
  listener_of event_or_callback none =
      if is_callable event_or_callback
      then ok (k.all ∷ [], event_or_callback)
      else err (
          exception
            "Expected `str | UtxoProcessorEvent | Sequence[str | UtxoProcessorEvent]` for event_or_callback and `callback` to be callable")

  unfoldable pub add_event_listener :
      Callbacks → Obj → Option Obj → List Obj → Option Kwargs → Callbacks × PyResult (Unit {0})
  unfolding listener_of
  add_event_listener callbacks event_or_callback callback args kwargs =
      elim (listener_of event_or_callback callback) [
        | ok (targets, function) ↦ (
          push_each callbacks targets
              (Callback.new py function args (unwrap_or empty_kwargs kwargs)),
          ok tt,
        )
        | err e ↦ (callbacks, err e)
      ]

  -- what `retain` keeps: the entries of other callbacks
  abbrev pub others : Obj → PyCallback py → Bool
  others callback entry = not (callback_ptr_eq py entry callback)

  unfoldable pub retain_each : Callbacks → List EventKind → Obj → Callbacks
  retain_each callbacks [] callback = callbacks
  retain_each callbacks (target ∷ targets) callback =
      retain_each (retain_at ⦃e = k.eq⦄ callbacks target (others callback)) targets callback

  unfoldable pub remove_each : Callbacks → List EventKind → Callbacks
  remove_each callbacks [] = callbacks
  remove_each callbacks (target ∷ targets) =
      remove_each (remove ⦃e = k.eq⦄ callbacks target) targets

  -- the match on `callback` once the targets are parsed
  abbrev pub remove_targets : Callbacks → List EventKind → Option Obj → Callbacks
  remove_targets callbacks targets (some callback) = retain_each callbacks targets callback
  remove_targets callbacks targets none = remove_each callbacks targets

  abbrev pub is_none : Option Obj → Bool
  is_none none = Bool.true
  is_none (some _) = Bool.false

  unfoldable pub remove_event_listener :
      Callbacks → Obj → Option Obj → Callbacks × PyResult (Unit {0})
  remove_event_listener callbacks event_or_callback callback =
      if is_none callback && is_callable event_or_callback
      then (retain_all callbacks (others event_or_callback), ok tt)
      else elim (parse_event_targets py c k event_or_callback) [
        | ok targets ↦ (remove_targets callbacks targets callback, ok tt)
        | err e ↦ (callbacks, err e)
      ]

  unfoldable pub remove_all_event_listeners : Callbacks → Callbacks × PyResult (Unit {0})
  remove_all_event_listeners callbacks = ([], ok tt)
