-- ===== src/Rpc/Tasks.antt =====
-- How many notification tasks an awaited call of connect, disconnect, start or stop leaves, where none
-- panics.
use kaspa_python_sdk.Prelude.{
  ℕ, ◌+◌, ◌-◌, ◌≡◌, refl, ◌∙◌, String, Bool, true, false, ◌&&◌, Option, Result, ok, Result-cases,
  Bool-cases, inl, inr, is_ok, if◌then◌else◌, arith,
}
use kaspa_python_sdk.Listeners.Python.{Python}
use kaspa_python_sdk.Rpc.Events.{EventTypes}
use kaspa_python_sdk.Rpc.Node.{Node}
use kaspa_python_sdk.Rpc.Task.{Inner, start_notification_task, stop_notification_task}
use kaspa_python_sdk.Rpc.Connection.{
  Connector, Called, strategy_of, start_then, then_stop, connect, disconnect, start, stop,
}

-- the calls, with the arguments of connect
pub data Awaited : Type 0 where
  connects : Option Bool → Option String → Option String → Option ℕ → Option ℕ → Awaited
  disconnects starts stops : Awaited

abbrev pub one_if : Bool → ℕ
one_if b = if b then 1 else 0

module _ (py : Python) (t : EventTypes) (n : Node py t) (c : Connector n.Client)
    (signal : Inner py t n → Result String (Inner py t n)) where
  open n use {Client}

  abbrev pub invoke : Awaited → Inner py t n → Called py t n c
  invoke (connects block_async_connect strategy url timeout_duration retry_interval) inner =
      connect py t n c block_async_connect strategy url timeout_duration retry_interval inner
  invoke disconnects inner = disconnect py t n c signal inner
  invoke starts inner = start py t n c inner
  invoke stops inner = stop py t n c signal inner

  -- whether the call is one that, where it succeeds, has told the task to stop and got its answer
  abbrev is_stop : Awaited → Bool
  is_stop (connects _ _ _ _ _) = false
  is_stop disconnects = true
  is_stop starts = false
  is_stop stops = true

  -- the tasks that run after a call, from those before it
  abbrev pub running : ℕ → Awaited → Inner py t n → ℕ
  running before call inner =
      let done = invoke call inner in
      before
      + one_if done.spawned
      - one_if (is_stop call && is_ok done.result && inner.notification_task)

  start_then-flag :
      (f : Client → Client × Result String (Unit {0})) (inner : Inner py t n)
      → one_if inner.notification_task + one_if (start_then py t n c f inner).spawned
        ≡ one_if (start_then py t n c f inner).inner.notification_task
  unfolding start_then start_notification_task
  start_then-flag f inner = elim (Bool-cases inner.notification_task) [
    | inl e ↦ rw (e, start_then) refl
    | inr e ↦ rw (e, start_then) refl
  ]

  -- what the flag says after a stop: on an answer it is cleared
  stopped-flag :
      (left stopped : Inner py t n)
      → stop_notification_task py t n signal left ≡ ok stopped
      → stopped.notification_task ≡ false
  unfolding stop_notification_task
  stopped-flag left stopped h = ground (arith, h)

  then_stop-flag :
      (f : Client → Client × Result String (Unit {0})) (inner : Inner py t n)
      → let done = then_stop py t n c f signal inner in
        (done.spawned ≡ false)
        × (done.inner.notification_task
            ≡ (if is_ok done.result then false else inner.notification_task))
  unfolding then_stop
  then_stop-flag f inner =
      let (client, done) = f inner.client in
      elim (Result-cases done) [
        | inr (x, e) ↦ rw (e, then_stop) (refl, refl)
        | inl (_, e) ↦
            let left = record inner { client = client } in
            elim (Result-cases (stop_notification_task py t n signal left)) [
              | inr (x, s) ↦ rw (e, then_stop, s) (refl, refl)
              | inl (stopped, s) ↦ rw (e, then_stop, s) (refl, stopped-flag left stopped s)
            ]
      ]

  pub sub_zero : (k : ℕ) → k - 0 ≡ k
  sub_zero k = omega arith

  pub running-flag :
      (call : Awaited) (inner : Inner py t n)
      → running (one_if inner.notification_task) call inner
        ≡ one_if (invoke call inner).inner.notification_task
  unfolding connect disconnect start stop
  running-flag (connects block_async_connect strategy url timeout_duration retry_interval) inner =
      elim (Result-cases (strategy_of py t n c strategy)) [
        | inl (parsed, e) ↦ rw (e, connect) (sub_zero _ ∙ start_then-flag _ inner)
        | inr (x, e) ↦ rw (e, connect) (omega arith)
      ]
  running-flag disconnects inner =
      let (spawned, flag) = then_stop-flag c.disconnect_client inner in
      ground (arith, spawned, flag)
  running-flag starts inner = sub_zero _ ∙ start_then-flag c.start_client inner
  running-flag stops inner =
      let (spawned, flag) = then_stop-flag c.stop_client inner in ground (arith, spawned, flag)
