-- ===== src/Rpc/Listeners.antt =====
-- The listener methods of `RpcClient` (src/rpc/wrpc/client.rs). Each returns the new table.
use kaspa_python_sdk.Prelude.{Bool, not, Option, none, some, List, [], PartialEq, unwrap_or}
use kaspa_python_sdk.Listeners.Python.{Python}
use kaspa_python_sdk.Listeners.Callback
use kaspa_python_sdk.Listeners.Callback.{PyCallback, callback_ptr_eq}
use kaspa_python_sdk.Listeners.Table.{push, remove, retain_at, retain_all, notification_callbacks}
use kaspa_python_sdk.Rpc.Events.{
  PyNotificationEvent, NotificationEvent, EventTypes, from_py, event_eq,
}

module _ (py : Python) (t : EventTypes) where
  open py use {Obj, Kwargs, empty_kwargs}
  open t use {EventType}

  abbrev pub Event : Type 0
  Event = NotificationEvent EventType

  abbrev pub Callbacks : Type 0
  Callbacks = List (Event × List (PyCallback py))

  instance abbrev pub key_eq : PartialEq Event
  key_eq = event_eq ⦃e = t.eq⦄

  -- `Inner::notification_callbacks`
  unfoldable pub callbacks_for : Callbacks → Event → Option (List (PyCallback py))
  callbacks_for callbacks event =
      notification_callbacks ⦃e = key_eq⦄ NotificationEvent.all callbacks event

  unfoldable pub add_event_listener :
      Callbacks → PyNotificationEvent → Obj → List Obj → Option Kwargs → Callbacks
  add_event_listener callbacks event callback args kwargs =
      push ⦃e = key_eq⦄ callbacks (from_py t event)
        (Callback.new py callback args (unwrap_or empty_kwargs kwargs))

  -- what `retain` keeps: the entries of other callbacks
  abbrev pub others : Obj → PyCallback py → Bool
  others callback entry = not (callback_ptr_eq py entry callback)

  unfoldable pub remove_from : Callbacks → Event → Option Obj → Callbacks
  remove_from callbacks NotificationEvent.all none = []
  remove_from callbacks NotificationEvent.all (some callback) =
      retain_all callbacks (others callback)
  remove_from callbacks event none = remove ⦃e = key_eq⦄ callbacks event
  remove_from callbacks event (some callback) =
      retain_at ⦃e = key_eq⦄ callbacks event (others callback)

  unfoldable pub remove_event_listener : Callbacks → PyNotificationEvent → Option Obj → Callbacks
  unfolding remove_from
  remove_event_listener callbacks event callback = remove_from callbacks (from_py t event) callback

  unfoldable pub remove_all_event_listeners : Callbacks → Callbacks
  remove_all_event_listeners callbacks = []
