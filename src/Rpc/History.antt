-- ===== src/Rpc/History.antt =====
-- How many notification tasks of `RpcClient` (src/rpc/wrpc/client.rs) run after awaited calls of connect,
-- disconnect, start and stop, and after the messages that a task receives between them.
use kaspa_python_sdk.Prelude.{
  ℕ, ◌-◌, ◌≤◌, ◌≡◌, refl, ap, ◌∙◌, String, Bool, true, false, ◌||◌, subst, ltb, List, [], ◌∷◌,
  Result, Bool-cases, ◌⊎◌, sym, inl, inr, if◌then◌else◌, arith,
}
use kaspa_python_sdk.Listeners.Python.{Python}
use kaspa_python_sdk.Rpc.Events.{EventTypes, Ctl}
use kaspa_python_sdk.Rpc.Node.{Node}
use kaspa_python_sdk.Rpc.Task.{Inner, Message, ctl, notified, TaskState, run}
use kaspa_python_sdk.Rpc.Sessions.{run-notification_task}
use kaspa_python_sdk.Rpc.Connection.{Connector}
use kaspa_python_sdk.Rpc.Tasks.{Awaited, invoke, one_if, running, running-flag, sub_zero}

module _ (py : Python) (t : EventTypes) (n : Node py t) (c : Connector n.Client)
    (signal : Inner py t n → Result String (Inner py t n)) where
  open n use {Client}

  -- what a notification task receives between the calls
  pub data Received : Type 0 where
    ctl_event : Ctl → Received
    node_event : n.Notification → Received

  abbrev messages : List Received → List (Message py t n)
  messages [] = []
  messages (ctl_event c ∷ events) = ctl c ∷ messages events
  messages (node_event m ∷ events) = notified m ∷ messages events

  pub data Happening : Type 0 where
    awaits : Awaited → Happening
    receives : List Received → Happening

  -- how many tasks run, whether one has panicked, and the state
  pub record World : Type 0 where
    pub tasks : ℕ
    pub panicked : Bool
    pub inner : Inner py t n

  abbrev has_panicked : TaskState → Bool
  has_panicked TaskState.panicked = true
  has_panicked TaskState.waiting = false
  has_panicked TaskState.stopped = false

  -- A task that panics runs no more. Where none runs, nothing is received; a call of `stop` may then
  -- still be answered, by any `signal`.
  unfoldable pub happen : Happening → World → World
  happen (awaits call) w = record w {
    tasks = running py t n c signal w.tasks call w.inner;
    inner = (invoke py t n c signal call w.inner).inner;
  }
  happen (receives events) w =
      let done = run py t n w.inner (messages events) in
      if ltb 0 w.tasks
      then record {
        tasks = w.tasks - one_if (has_panicked done.state);
        panicked = w.panicked || has_panicked done.state;
        inner = done.inner;
      }
      else w

  unfoldable pub history : List Happening → World → World
  history [] w = w
  history (h ∷ later) w = history later (happen h w)

  -- as many tasks as the flag says, or one less because one has panicked
  abbrev IsTracked : World → Type 0
  IsTracked w =
      (w.tasks ≡ one_if w.inner.notification_task)
      ⊎ ((w.tasks ≡ 0) × (w.inner.notification_task ≡ true) × (w.panicked ≡ true))

  one_if-le : (b : Bool) → one_if b ≤ 1
  one_if-le b = ground arith

  -- where one task less runs than the flag says
  running-lost :
      (call : Awaited) (inner : Inner py t n)
      → inner.notification_task ≡ true
      → running py t n c signal 0 call inner ≡ 0
  running-lost call inner set =
      let one =
        ap (λ flag. running py t n c signal (one_if flag) call inner) (sym set)
        ∙ running-flag py t n c signal call inner in
      let more : running py t n c signal 1 call inner ≤ 1 =
        subst (λ k. k ≤ 1) (sym one) (one_if-le _) in
      omega (arith, more)

  exact_less : (tasks : ℕ) (flag : Bool) → tasks ≡ one_if flag → tasks - 1 ≡ 0
  exact_less tasks flag exact = ground (arith, exact)

  or_true : (b : Bool) → b || true ≡ true
  or_true true = refl
  or_true false = refl

  happen-IsTracked : (h : Happening) (w : World) → IsTracked w → IsTracked (happen h w)
  unfolding happen
  happen-IsTracked (awaits call) w (inl exact) = inl (
      ap (λ k. running py t n c signal k call w.inner) exact
      ∙ running-flag py t n c signal call w.inner)
  happen-IsTracked (awaits call) w (inr (no_task, set, panicked)) =
      let still =
        ap (λ k. running py t n c signal k call w.inner) no_task ∙ running-lost call w.inner set in
      elim (Bool-cases (invoke py t n c signal call w.inner).inner.notification_task) [
        | inl e ↦ inr (still, e, panicked)
        | inr e ↦ inl (rw e still)
      ]
  happen-IsTracked (receives events) w (inr (no_task, set, panicked)) =
      let idle : ltb 0 w.tasks ≡ false = ground (arith, no_task) in
      rw idle (inr (no_task, set, panicked))
  happen-IsTracked (receives events) w (inl exact) = elim (Bool-cases (ltb 0 w.tasks)) [
    | inr idle ↦ rw idle (inl exact)
    | inl busy ↦
        let kept = run-notification_task py t n w.inner (messages events) in
        let set : w.inner.notification_task ≡ true = ground (arith, exact, busy) in
        elim (Bool-cases (has_panicked (run py t n w.inner (messages events)).state)) [
          | inl lost ↦
              rw (busy, lost)
                (inr (
                  exact_less w.tasks w.inner.notification_task exact,
                  kept ∙ set,
                  or_true w.panicked,
                ))
          | inr well ↦
              rw (busy, well)
                (inl (sub_zero py t n c signal w.tasks ∙ exact ∙ ap one_if (sym kept)))
        ]
  ]

  history-IsTracked : (hs : List Happening) (w : World) → IsTracked w → IsTracked (history hs w)
  unfolding history
  history-IsTracked [] w h = h
  history-IsTracked (h ∷ later) w tracked =
      history-IsTracked later (happen h w) (happen-IsTracked h w tracked)

  -- After any awaited calls of connect, disconnect, start and stop on a new client, whether they
  -- succeed or fail, with any messages received between them, on which the task may panic: a
  -- notification task runs exactly if the flag is set, or the flag is set and none runs, and then one
  -- has panicked; so never more than one runs.
  pub history-one_task :
      (hs : List Happening) (inner : Inner py t n)
      → inner.notification_task ≡ false
      → let w = history hs (record { tasks = 0; panicked = false; inner = inner }) in
        ((w.tasks ≡ (if w.inner.notification_task then 1 else 0))
          ⊎ ((w.tasks ≡ 0) × (w.inner.notification_task ≡ true) × (w.panicked ≡ true)))
        × (w.tasks ≤ 1)
  history-one_task hs inner h =
      let w = history hs (record { tasks = 0; panicked = false; inner = inner }) in
      let tracked =
        history-IsTracked hs (record { tasks = 0; panicked = false; inner = inner })
          (inl (rw h refl)) in
      (tracked, ground (arith, tracked))
