-- ===== src/Tests/Tasks.antt =====
-- The notification task over a node that numbers its listeners; the callable object 13 raises.
use kaspa_python_sdk.Prelude.{
  ℕ, ◌+◌, ◌≡◌, ◌≢◌, refl, sym, ◌∙◌, true, false, none, some, [], ◌∷◌, ok, err, nat_beq,
  if◌then◌else◌, List, Bool-cases, inl, inr,
}
use kaspa_python_sdk.Listeners.Python.{Python}
use kaspa_python_sdk.Listeners.Callback.{PyCallback, execute, add_event_to_args}
use kaspa_python_sdk.Listeners.Table.{get, notification_callbacks}
use kaspa_python_sdk.Rpc.Events.{NotificationEvent, notification, Ctl}
use kaspa_python_sdk.Rpc.Listeners.{callbacks_for}
use kaspa_python_sdk.Rpc.Node.{Node}
use kaspa_python_sdk.Rpc.Task.{
  Inner, Message, ctl, notified, closed, TaskState, call_handlers, deliver, ctl_event, on_ctl,
  on_notification, notification_event, after_turn, run, start_notification_task,
}
use kaspa_python_sdk.Rpc.Delivery.{call_handlers-first_raised, run_delivers, reached_by, IsQuiet}
use kaspa_python_sdk.Rpc.Sessions.{
  run-has_listener_id, start_notification_task-run, has_listener_id,
}
use kaspa_python_sdk.Tests.Listeners.{objects, types}

-- as `objects`, but object 13 raises
abbrev pub raising : Python
raising = record objects { call = λ f _ _. if nat_beq f 13 then err tt else ok f }

abbrev pub node : (py : Python) → py.Obj → Node py types
node py object = record {
  Client = ℕ;
  ListenerId = ℕ;
  Address = ℕ;
  url = λ _. none;
  register_new_listener = λ c. (c, c + 1);
  unregister_listener = λ c _. ok c;
  start_notify = λ c _ _. ok c;
  stop_notify = λ c _ _. ok c;
  Notification = ℕ;
  event_type = λ m. m;
  event_type_string = λ _. "";
  ctl_string = λ _. "";
  utxos_changed = λ m. if nat_beq m 4 then some (some object, some object) else none;
  to_pyobject = λ _. some object;
  dict = λ _. object;
  text = λ _. object;
  text_or_none = λ _. object;
}

abbrev listener : (py : Python) → py.Obj → PyCallback py
listener py object = record { callback = object; args = none; kwargs = none }

-- one listener for all events, and one for the event type 4
abbrev pub quiet : Inner objects types (node objects 0)
quiet = record {
  client = 7;
  notification_task = true;
  callbacks =
      (NotificationEvent.all, listener objects 10 ∷ [])
      ∷ (notification 4, listener objects 11 ∷ [])
      ∷ [];
  listener_id = none;
}

abbrev pub loud : Inner raising types (node raising 0)
loud = record {
  client = 7;
  notification_task = true;
  callbacks =
      (NotificationEvent.all, listener raising 10 ∷ [])
      ∷ (notification 4, listener raising 13 ∷ listener raising 12 ∷ [])
      ∷ [];
  listener_id = none;
}

abbrev session : List (Message objects types (node objects 0))
session = ctl Ctl.connect ∷ notified 4 ∷ closed ∷ ctl Ctl.disconnect ∷ notified 5 ∷ []

call_handlers-first_raised_example :
    (call_handlers raising types (node raising 0) (some 0) (listener raising 10 ∷ [])
      ≡ (listener raising 10 ∷ [], false))
    × (call_handlers raising types
          (node raising 0)
          (some 0)
          (listener raising 10 ∷ listener raising 13 ∷ listener raising 12 ∷ [])
        ≡ (listener raising 10 ∷ listener raising 13 ∷ [], true))
unfolding execute add_event_to_args
call_handlers-first_raised_example =
    call_handlers-first_raised raising types (node raising 0) 0 (listener raising 10 ∷ [])
      (listener raising 13) (listener raising 12 ∷ []) refl refl

waiting_not_panicked : TaskState.waiting ≢ TaskState.panicked
waiting_not_panicked h = cc

session_state : (run objects types (node objects 0) quiet session).state ≡ TaskState.waiting
unfolding run after_turn on_ctl on_notification deliver call_handlers callbacks_for
    notification_callbacks get execute add_event_to_args notification_event ctl_event
session_state = refl

session_alive : (run objects types (node objects 0) quiet session).state ≢ TaskState.panicked
session_alive h = waiting_not_panicked (sym session_state ∙ h)

session_calls :
    reached_by objects types (node objects 0) quiet.callbacks session
    ≡ listener objects 10
      ∷ listener objects 10
      ∷ listener objects 11
      ∷ listener objects 10
      ∷ listener objects 10
      ∷ []
unfolding callbacks_for notification_callbacks get
session_calls = refl

builds_event :
    (m : ℕ) → (event : ℕ) × (notification_event objects types (node objects 0) m ≡ some event)
unfolding notification_event
builds_event m = elim (Bool-cases (nat_beq m 4)) [
  | inl e ↦ (0, rw (e, notification_event) refl)
  | inr e ↦ (0, rw (e, notification_event) refl)
]

all_quiet : IsQuiet objects types (node objects 0)
unfolding execute
all_quiet = record {
  all_return = λ handler event. refl;
  builds = builds_event;
  unregisters = λ client listener_id. (client, refl);
}

run_delivers_example :
    ((run objects types (node objects 0) quiet session).state ≡ TaskState.waiting)
    × ((run objects types (node objects 0) quiet session).calls
        ≡ reached_by objects types (node objects 0) quiet.callbacks session)
run_delivers_example = run_delivers objects types (node objects 0) all_quiet quiet session

run-has_listener_id_example :
    has_listener_id objects types
      (node objects 0)
      (run objects types (node objects 0) quiet session).inner
    ≡ false
run-has_listener_id_example =
    run-has_listener_id objects types (node objects 0) quiet session session_alive

panics_on_raise :
    (run raising types (node raising 0) loud (ctl Ctl.connect ∷ notified 4 ∷ [])).state
    ≡ TaskState.panicked
unfolding run after_turn on_ctl on_notification deliver call_handlers callbacks_for
    notification_callbacks get execute add_event_to_args notification_event ctl_event
panics_on_raise = refl

start_notification_task-run_example :
    start_notification_task raising types
      (node raising 0)
      (run raising types (node raising 0) loud (ctl Ctl.connect ∷ notified 4 ∷ [])).inner
    ≡ (false, (run raising types (node raising 0) loud (ctl Ctl.connect ∷ notified 4 ∷ [])).inner)
start_notification_task-run_example =
    start_notification_task-run raising types (node raising 0) loud
      (ctl Ctl.connect ∷ notified 4 ∷ []) refl
