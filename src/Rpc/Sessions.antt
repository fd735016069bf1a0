-- ===== src/Rpc/Sessions.antt =====
-- The listener id and the running flag of `RpcClient` over the life of the notification task.
use kaspa_python_sdk.Prelude.{
  ◌≡◌, ◌≢◌, refl, ap, sym, ◌∙◌, Bool, true, false, none, some, List, [], ◌∷◌, ok, err, arith,
  exception, Result, String, Bool-cases, Option-cases, inl, inr,
}
use mathlib.Core.Bool.{false≢true}
use kaspa_python_sdk.Listeners.Python.{Python}
use kaspa_python_sdk.Rpc.Events.{EventTypes, Ctl}
use kaspa_python_sdk.Rpc.Node.{Node, Scope}
use kaspa_python_sdk.Rpc.Task.{
  Inner, Message, Turn, ctl, notified, closed, shutdown, Run, TaskState, deliver, on_ctl,
  on_notification, after_turn, run, finish, start_notification_task, stop_notification_task,
}
use kaspa_python_sdk.Rpc.Subscriptions.{subscribe, unsubscribe}

module _ (py : Python) (t : EventTypes) (n : Node py t) where
  open n use {Address}

  -- whether the client holds the id of a listener, and what the control messages make of that
  abbrev pub has_listener_id : Inner py t n → Bool
  has_listener_id inner = elim inner.listener_id [ none ↦ false | some _ ↦ true ]

  abbrev pub is_connect : Ctl → Bool
  is_connect Ctl.connect = true
  is_connect Ctl.disconnect = false

  abbrev pub connected_after : Bool → List (Message py t n) → Bool
  connected_after was [] = was
  connected_after was (ctl c ∷ messages) = connected_after (is_connect c) messages
  connected_after was (shutdown ∷ messages) = false
  connected_after was (closed ∷ messages) = connected_after was messages
  connected_after was (notified m ∷ messages) = connected_after was messages

  on_ctl-has_listener_id :
      (inner : Inner py t n) (c : Ctl)
      → has_listener_id (on_ctl py t n inner c).inner ≡ is_connect c
  unfolding on_ctl deliver
  on_ctl-has_listener_id inner Ctl.connect = refl
  on_ctl-has_listener_id inner Ctl.disconnect = ground arith

  finish-has_listener_id : (inner : Inner py t n) → has_listener_id (finish py t n inner) ≡ false
  unfolding finish
  finish-has_listener_id inner = ground arith

  after_turn-alive :
      (turn : Turn py t n) (rest : Run py t n)
      → (after_turn py t n turn rest).state ≢ TaskState.panicked
      → ((after_turn py t n turn rest).inner ≡ rest.inner) × (rest.state ≢ TaskState.panicked)
  unfolding after_turn
  after_turn-alive turn rest alive = elim (Bool-cases turn.panicked) [
    | inl p ↦ absurd (alive (rw p refl))
    | inr p ↦ (rw p refl, λ e. alive (rw p e))
  ]

  after_turn-notification_task :
      (turn : Turn py t n) (rest : Run py t n) (flag : Bool)
      → turn.inner.notification_task ≡ flag
      → rest.inner.notification_task ≡ flag
      → (after_turn py t n turn rest).inner.notification_task ≡ flag
  unfolding after_turn
  after_turn-notification_task turn rest flag h k = elim (Bool-cases turn.panicked) [
    | inl p ↦ rw p h
    | inr p ↦ rw p k
  ]

  -- Unless the task panics, the client holds the id of a listener exactly when the last control message
  -- was a connect, or when there was none and it held one before; after a stop it holds none, even if
  -- the node refuses to unregister the listener.
  pub run-has_listener_id :
      (inner : Inner py t n) (messages : List (Message py t n))
      → (run py t n inner messages).state ≢ TaskState.panicked
      → has_listener_id (run py t n inner messages).inner
        ≡ connected_after (has_listener_id inner) messages
  unfolding run on_notification deliver
  run-has_listener_id inner [] h = refl
  run-has_listener_id inner (shutdown ∷ messages) h = finish-has_listener_id inner
  run-has_listener_id inner (closed ∷ messages) h = run-has_listener_id inner messages h
  run-has_listener_id inner (ctl c ∷ messages) h =
      let alive =
        after_turn-alive (on_ctl py t n inner c) (run py t n (on_ctl py t n inner c).inner messages)
          h in
      ap has_listener_id alive.0
      ∙ run-has_listener_id (on_ctl py t n inner c).inner messages alive.1
      ∙ ap (λ was. connected_after was messages) (on_ctl-has_listener_id inner c)
  run-has_listener_id inner (notified m ∷ messages) h =
      let alive = after_turn-alive (on_notification py t n inner m) (run py t n inner messages) h in
      ap has_listener_id alive.0 ∙ run-has_listener_id inner messages alive.1

  on_ctl-notification_task :
      (inner : Inner py t n) (c : Ctl)
      → (on_ctl py t n inner c).inner.notification_task ≡ inner.notification_task
  unfolding on_ctl deliver
  on_ctl-notification_task inner Ctl.connect = refl
  on_ctl-notification_task inner Ctl.disconnect = ground arith

  finish-notification_task :
      (inner : Inner py t n) → (finish py t n inner).notification_task ≡ inner.notification_task
  unfolding finish
  finish-notification_task inner = ground arith

  pub run-notification_task :
      (inner : Inner py t n) (messages : List (Message py t n))
      → (run py t n inner messages).inner.notification_task ≡ inner.notification_task
  unfolding run on_notification deliver
  run-notification_task inner [] = refl
  run-notification_task inner (shutdown ∷ messages) = finish-notification_task inner
  run-notification_task inner (closed ∷ messages) = run-notification_task inner messages
  run-notification_task inner (ctl c ∷ messages) =
      after_turn-notification_task _ (run py t n (on_ctl py t n inner c).inner messages) _
        (on_ctl-notification_task inner c)
        (run-notification_task (on_ctl py t n inner c).inner messages
          ∙ on_ctl-notification_task inner c)
  run-notification_task inner (notified m ∷ messages) =
      after_turn-notification_task (on_notification py t n inner m) _ _ refl
        (run-notification_task inner messages)

  -- The task never clears its own running flag, a panic included: after any run of a started task,
  -- `start_notification_task` spawns no task and changes nothing.
  pub start_notification_task-run :
      (inner : Inner py t n) (messages : List (Message py t n))
      → inner.notification_task ≡ true
      → start_notification_task py t n (run py t n inner messages).inner
        ≡ (false, (run py t n inner messages).inner)
  unfolding start_notification_task
  start_notification_task-run inner messages started =
      rw (run-notification_task inner messages ∙ started) refl

  -- `stop_notification_task` on a started task that answers the signal leaves a state from which
  -- `start_notification_task` spawns a task again; it then differs from what the task left only in
  -- the flag, which is set.
  pub start_notification_task-stop_notification_task :
      (signal : Inner py t n → Result String (Inner py t n)) (inner left stopped : Inner py t n)
      → inner.notification_task ≡ true
      → signal inner ≡ ok left
      → stop_notification_task py t n signal inner ≡ ok stopped
      → start_notification_task py t n stopped ≡ (true, record left { notification_task = true })
  unfolding start_notification_task stop_notification_task
  start_notification_task-stop_notification_task signal inner left stopped started answered done =
      ground arith

  -- Where the task has not panicked and the last control message was not a connect, with none
  -- registered before if there was no control message, every subscription and its removal fail as
  -- on a closed connection, whatever the node would answer.
  pub subscribe-closed :
      (inner : Inner py t n) (messages : List (Message py t n)) (scope : Scope Address)
      → (run py t n inner messages).state ≢ TaskState.panicked
      → connected_after (has_listener_id inner) messages ≡ false
      → (subscribe py t n scope (run py t n inner messages).inner
          ≡ err (exception "RPC subscribe on a closed connection"))
        × (unsubscribe py t n scope (run py t n inner messages).inner
            ≡ err (exception "RPC unsubscribe on a closed connection"))
  unfolding subscribe unsubscribe
  subscribe-closed inner messages scope h off =
      let none_left = run-has_listener_id inner messages h ∙ off in
      elim (Option-cases (run py t n inner messages).inner.listener_id) [
        | inl e ↦ (rw (e, subscribe) refl, rw (e, unsubscribe) refl)
        | inr (l, e) ↦ absurd (false≢true (sym none_left ∙ rw (e, has_listener_id) refl))
      ]
