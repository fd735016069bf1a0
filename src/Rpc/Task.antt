-- ===== src/Rpc/Task.antt =====
-- The notification task of `RpcClient` (src/rpc/wrpc/client.rs): one turn of its loop for each
-- message, and the methods that start and stop it. A turn tells which listeners were called and
-- whether it panicked.
use kaspa_python_sdk.Prelude.{
  Bool, true, false, Option, none, some, List, [], ◌∷◌, ◌++◌, Result, ok, err, ◌>>=◌, unwrap_or,
  if◌then◌else◌, String,
}
use kaspa_python_sdk.Listeners.Python.{Python}
use kaspa_python_sdk.Listeners.Callback.{PyCallback, execute}
use kaspa_python_sdk.Rpc.Events.{NotificationEvent, notification, rpc_ctl, EventTypes, Ctl}
use kaspa_python_sdk.Rpc.Listeners.{Callbacks, callbacks_for}
use kaspa_python_sdk.Rpc.Node.{Node}

-- How the task stands after the messages received so far.
pub data TaskState : Type 0 where
  waiting panicked stopped : TaskState

module _ (py : Python) (t : EventTypes) (n : Node py t) where
  open py use {Obj}
  open n use {Client, ListenerId, Notification}

  pub record Inner : Type 0 where
    pub client : Client
    pub notification_task : Bool
    pub callbacks : Callbacks py t
    pub listener_id : Option ListenerId

  -- what the `select_biased!` of the loop receives
  pub data Message : Type 0 where
    ctl : Ctl → Message
    notified : Notification → Message
    -- either receiver returns an error, which the loop ignores
    closed : Message
    shutdown : Message

  -- The listeners called and whether the task panicked. The event is built anew for each listener,
  -- and an event that cannot be built panics as a listener that raises does.
  unfoldable pub call_handlers : Option Obj → List (PyCallback py) → List (PyCallback py) × Bool
  call_handlers event [] = ([], false)
  call_handlers none (handler ∷ handlers) = ([], true)
  call_handlers (some event) (handler ∷ handlers) =
      let rest = call_handlers (some event) handlers in
      elim (execute py handler event) [
        | ok _ ↦ (handler ∷ rest.0, rest.1)
        | err _ ↦ (handler ∷ [], true)
      ]

  pub record Turn : Type 0 where
    pub inner : Inner
    pub calls : List (PyCallback py)
    pub panicked : Bool

  unfoldable pub deliver : Inner → NotificationEvent t.EventType → Option Obj → Turn
  deliver inner event built =
      let called = call_handlers built (unwrap_or [] (callbacks_for py t inner.callbacks event)) in
      record { inner = inner; calls = called.0; panicked = called.1 }

  unfoldable pub ctl_event : Inner → Ctl → Option Obj
  ctl_event inner c = some (
      n.dict
        (("type", n.text (n.ctl_string c)) ∷ ("rpc", n.text_or_none (n.url inner.client)) ∷ []))

  unfoldable pub on_ctl : Inner → Ctl → Turn
  on_ctl inner Ctl.connect =
      let registered = n.register_new_listener inner.client in
      let connected : Inner = record inner {
        client = registered.1;
        listener_id = some registered.0;
      } in
      deliver connected (rpc_ctl Ctl.connect) (ctl_event connected Ctl.connect)
  on_ctl inner Ctl.disconnect =
      let taken : Inner = record inner { listener_id = none } in
      elim inner.listener_id [
        | none ↦ deliver taken (rpc_ctl Ctl.disconnect) (ctl_event taken Ctl.disconnect)
        | some listener_id ↦ elim (n.unregister_listener inner.client listener_id) [
          | ok client ↦
              let gone : Inner = record taken { client = client } in
              deliver gone (rpc_ctl Ctl.disconnect) (ctl_event gone Ctl.disconnect)
          | err _ ↦ record { inner = taken; calls = []; panicked = true }
        ]
      ]

  utxos_changed_event : Notification → Option Obj → Option Obj → Option Obj
  utxos_changed_event m (some added) (some removed) = some (
      n.dict (
        ("type", n.text (n.event_type_string (n.event_type m)))
        ∷ ("added", added)
        ∷ ("removed", removed)
        ∷ []))
  utxos_changed_event m _ _ = none

  unfoldable pub notification_event : Notification → Option Obj
  unfolding utxos_changed_event
  notification_event m = elim (n.utxos_changed m) [
    | some entries ↦ utxos_changed_event m entries.0 entries.1
    | none ↦ elim (n.to_pyobject m) [
      | none ↦ none
      | some data_object ↦ some (
          n.dict
            (("type", n.text (n.event_type_string (n.event_type m))) ∷ ("data", data_object) ∷ []))
    ]
  ]

  unfoldable pub on_notification : Inner → Notification → Turn
  on_notification inner m = deliver inner (notification (n.event_type m)) (notification_event m)

  pub record Run : Type 0 where
    pub inner : Inner
    pub calls : List (PyCallback py)
    pub state : TaskState

  -- After the loop: the listener is unregistered, and an error there is only logged.
  unfoldable pub finish : Inner → Inner
  finish inner = elim inner.listener_id [
    | none ↦ inner
    | some listener_id ↦
        let taken : Inner = record inner { listener_id = none } in
        elim (n.unregister_listener inner.client listener_id) [
          | ok client ↦ record taken { client = client }
          | err _ ↦ taken
        ]
  ]

  unfoldable pub after_turn : Turn → Run → Run
  after_turn turn rest =
      if turn.panicked
      then record { inner = turn.inner; calls = turn.calls; state = TaskState.panicked }
      else record { inner = rest.inner; calls = turn.calls ++ rest.calls; state = rest.state }

  -- The loop over the messages in the order of their arrival.
  unfoldable pub run : Inner → List Message → Run
  run inner [] = record { inner = inner; calls = []; state = TaskState.waiting }
  run inner (shutdown ∷ messages) = record {
    inner = finish inner;
    calls = [];
    state = TaskState.stopped;
  }
  run inner (closed ∷ messages) = run inner messages
  run inner (ctl c ∷ messages) =
      let turn = on_ctl inner c in let rest = run turn.inner messages in after_turn turn rest
  run inner (notified m ∷ messages) =
      let turn = on_notification inner m in
      let rest = run turn.inner messages in after_turn turn rest

  -- Whether a task is spawned, and the state.
  unfoldable pub start_notification_task : Inner → Bool × Inner
  start_notification_task inner =
      if inner.notification_task
      then (false, inner)
      else (true, record inner { notification_task = true })

  -- `signal` asks the task to stop and waits for its answer; meanwhile the task changes the state.
  unfoldable pub stop_notification_task :
      (Inner → Result String Inner) → Inner → Result String Inner
  stop_notification_task signal inner =
      if inner.notification_task
      then (do answered ← signal inner; ok (record answered { notification_task = false }))
      else ok inner
