-- ===== src/Rpc/Delivery.antt =====
-- Which listeners the notification task calls.
use kaspa_python_sdk.Prelude.{
  ◌≡◌, ◌≢◌, Bool-cases, refl, Bool, true, false, ◌&&◌, Option, none, some, List, [], ◌∷◌, ◌++◌, ok,
  is_ok, arith, ap, ap₂, ◌∙◌, sym, Option-cases, inl, inr,
}
use kaspa_python_sdk.Listeners.Python.{Python}
use kaspa_python_sdk.Listeners.Callback.{PyCallback, execute}
use kaspa_python_sdk.Rpc.Events.{notification, rpc_ctl, EventTypes, Ctl}
use kaspa_python_sdk.Rpc.Listeners.{Event, Callbacks}
use kaspa_python_sdk.Rpc.Removal.{reached}
use kaspa_python_sdk.Rpc.Node.{Node}
use kaspa_python_sdk.Rpc.Task.{
  Inner, Message, ctl, notified, closed, shutdown, Turn, Run, TaskState, call_handlers, deliver,
  on_ctl, on_notification, notification_event, ctl_event, after_turn, run,
}

module _ (py : Python) (t : EventTypes) (n : Node py t) where
  open py use {Obj}

  -- the listener returns on this event, and each of a list does
  abbrev pub answers : Obj → PyCallback py → Bool
  answers event handler = is_ok (execute py handler event)

  abbrev pub all_answer : Obj → List (PyCallback py) → Bool
  all_answer event [] = true
  all_answer event (handler ∷ handlers) = answers event handler && all_answer event handlers

  -- The listeners of an event are called in order up to the first that raises: where those before
  -- it return, each of them is called once without a panic, and with it the task panics, and it is
  -- the last one called, whatever listeners follow it.
  pub call_handlers-first_raised :
      (event : Obj) (before : List (PyCallback py)) (handler : PyCallback py)
      (after : List (PyCallback py))
      → all_answer event before ≡ true
      → answers event handler ≡ false
      → (call_handlers py t n (some event) before ≡ (before, false))
        × (call_handlers py t n (some event) (before ++ handler ∷ after)
            ≡ (before ++ handler ∷ [], true))
  unfolding call_handlers
  call_handlers-first_raised event [] handler after h raised = ground arith
  call_handlers-first_raised event (first ∷ before) handler after h raised =
      ground (arith, call_handlers-first_raised event before handler after)

  call_handlers-all :
      (event : Obj) (handlers : List (PyCallback py))
      → all_answer event handlers ≡ true
      → call_handlers py t n (some event) handlers ≡ (handlers, false)
  unfolding call_handlers
  call_handlers-all event [] h = refl
  call_handlers-all event (handler ∷ handlers) h = ground (arith, call_handlers-all event handlers)

  call_handlers-not_panicked :
      (built : Option Obj) (handlers : List (PyCallback py))
      → (call_handlers py t n built handlers).1 ≡ false
      → (call_handlers py t n built handlers).0 ≡ handlers
  unfolding call_handlers
  call_handlers-not_panicked built [] h = refl
  call_handlers-not_panicked none (handler ∷ handlers) h = ground arith
  call_handlers-not_panicked (some event) (handler ∷ handlers) h =
      ground (arith, call_handlers-not_panicked (some event) handlers)

  deliver-calls :
      (inner : Inner py t n) (event : Event py t) (built : Option Obj)
      → (deliver py t n inner event built).panicked ≡ false
      → (deliver py t n inner event built).calls ≡ reached py t inner.callbacks event
  unfolding deliver
  deliver-calls inner event built h = call_handlers-not_panicked _ _ h

  on_ctl-callbacks :
      (inner : Inner py t n) (c : Ctl) → (on_ctl py t n inner c).inner.callbacks ≡ inner.callbacks
  unfolding on_ctl deliver
  on_ctl-callbacks inner Ctl.connect = refl
  on_ctl-callbacks inner Ctl.disconnect = ground arith

  on_ctl-calls :
      (inner : Inner py t n) (c : Ctl)
      → (on_ctl py t n inner c).panicked ≡ false
      → (on_ctl py t n inner c).calls ≡ reached py t inner.callbacks (rpc_ctl c)
  unfolding on_ctl
  on_ctl-calls inner Ctl.connect h = deliver-calls _ _ _ h
  on_ctl-calls inner Ctl.disconnect h = grind (arith, deliver-calls)

  -- the listeners that these messages reach, in order
  abbrev pub reached_by : Callbacks py t → List (Message py t n) → List (PyCallback py)
  reached_by callbacks [] = []
  reached_by callbacks (shutdown ∷ messages) = []
  reached_by callbacks (closed ∷ messages) = reached_by callbacks messages
  reached_by callbacks (ctl c ∷ messages) =
      reached py t callbacks (rpc_ctl c) ++ reached_by callbacks messages
  reached_by callbacks (notified m ∷ messages) =
      reached py t callbacks (notification (n.event_type m)) ++ reached_by callbacks messages

  after_turn-calls :
      (turn : Turn py t n) (rest : Run py t n) (here later : List (PyCallback py))
      → (turn.panicked ≡ false → turn.calls ≡ here)
      → (rest.state ≢ TaskState.panicked → rest.calls ≡ later)
      → (after_turn py t n turn rest).state ≢ TaskState.panicked
      → (after_turn py t n turn rest).calls ≡ here ++ later
  unfolding after_turn
  after_turn-calls turn rest here later h k alive = elim (Bool-cases turn.panicked) [
    | inl p ↦ absurd (alive (rw p refl))
    | inr p ↦ rw p (ap₂ ◌++◌ (h p) (k (λ e. alive (rw p e))))
  ]

  -- Unless the task panics, the listeners it calls up to its end are those that the messages reach
  -- in the table, for each message those of `all` first and each once.
  pub run-calls :
      (inner : Inner py t n) (messages : List (Message py t n))
      → (run py t n inner messages).state ≢ TaskState.panicked
      → (run py t n inner messages).calls ≡ reached_by inner.callbacks messages
  unfolding run on_notification deliver
  run-calls inner [] h = refl
  run-calls inner (shutdown ∷ messages) h = refl
  run-calls inner (closed ∷ messages) h = run-calls inner messages h
  run-calls inner (ctl c ∷ messages) h =
      after_turn-calls (on_ctl py t n inner c) (run py t n (on_ctl py t n inner c).inner messages) _
        _ (on_ctl-calls inner c)
        (λ alive.
          run-calls (on_ctl py t n inner c).inner messages alive
          ∙ ap (λ callbacks. reached_by callbacks messages) (on_ctl-callbacks inner c))
        h
  run-calls inner (notified m ∷ messages) h =
      after_turn-calls (on_notification py t n inner m) (run py t n inner messages) _ _
        (deliver-calls inner _ _) (run-calls inner messages) h

  -- Listeners that return, events that can be built, and a node that unregisters.
  pub record IsQuiet : Type 0 where
    pub all_return : (handler : PyCallback py) (event : Obj) → answers event handler ≡ true
    pub builds : (m : n.Notification) → (event : Obj) × (notification_event py t n m ≡ some event)
    pub unregisters :
        (client : n.Client) (listener_id : n.ListenerId)
        → (left : n.Client) × (n.unregister_listener client listener_id ≡ ok left)

  all_answer-return :
      IsQuiet → (event : Obj) (handlers : List (PyCallback py)) → all_answer event handlers ≡ true
  all_answer-return q event [] = refl
  all_answer-return q event (handler ∷ handlers) =
      ground (arith, q.all_return handler event, all_answer-return q event handlers)

  deliver-not_panicked :
      IsQuiet
      → (inner : Inner py t n) (key : Event py t) (event : Obj)
      → (deliver py t n inner key (some event)).panicked ≡ false
  unfolding deliver
  deliver-not_panicked q inner key event =
      ap (λ p. p.1) (call_handlers-all event _ (all_answer-return q event _))

  on_ctl-not_panicked :
      IsQuiet → (inner : Inner py t n) (c : Ctl) → (on_ctl py t n inner c).panicked ≡ false
  unfolding on_ctl ctl_event
  on_ctl-not_panicked q inner Ctl.connect = deliver-not_panicked q _ _ _
  on_ctl-not_panicked q inner Ctl.disconnect = elim (Option-cases inner.listener_id) [
    | inl e ↦ rw (e, on_ctl) (deliver-not_panicked q _ _ _)
    | inr (l, e) ↦ rw (e, on_ctl, (q.unregisters inner.client l).1) (deliver-not_panicked q _ _ _)
  ]

  on_notification-not_panicked :
      IsQuiet
      → (inner : Inner py t n) (m : n.Notification)
      → (on_notification py t n inner m).panicked ≡ false
  unfolding on_notification
  on_notification-not_panicked q inner m = rw (q.builds m).1 (deliver-not_panicked q _ _ _)

  -- whether the task has received its stop
  abbrev pub is_stopped : List (Message py t n) → TaskState
  is_stopped [] = TaskState.waiting
  is_stopped (shutdown ∷ messages) = TaskState.stopped
  is_stopped (_ ∷ messages) = is_stopped messages

  run-state :
      IsQuiet
      → (inner : Inner py t n) (messages : List (Message py t n))
      → (run py t n inner messages).state ≡ is_stopped messages
  unfolding run after_turn on_notification deliver
  run-state q inner [] = refl
  run-state q inner (shutdown ∷ messages) = refl
  run-state q inner (closed ∷ messages) = run-state q inner messages
  run-state q inner (ctl c ∷ messages) =
      rw (on_ctl-not_panicked q inner c) (run-state q (on_ctl py t n inner c).inner messages)
  run-state q inner (notified m ∷ messages) =
      rw (on_notification-not_panicked q inner m) (run-state q inner messages)

  is_stopped-not_panicked :
      (messages : List (Message py t n)) → is_stopped messages ≢ TaskState.panicked
  is_stopped-not_panicked [] h = cc
  is_stopped-not_panicked (shutdown ∷ messages) h = cc
  is_stopped-not_panicked (closed ∷ messages) h = is_stopped-not_panicked messages h
  is_stopped-not_panicked (ctl c ∷ messages) h = is_stopped-not_panicked messages h
  is_stopped-not_panicked (notified m ∷ messages) h = is_stopped-not_panicked messages h

  -- If every listener returns, every event can be built and the node unregisters every listener,
  -- the task lives until it is told to stop, and calls all that the messages up to then reach.
  pub run_delivers :
      IsQuiet
      → (inner : Inner py t n) (messages : List (Message py t n))
      → ((run py t n inner messages).state ≡ is_stopped messages)
        × ((run py t n inner messages).calls ≡ reached_by inner.callbacks messages)
  run_delivers q inner messages = (
    run-state q inner messages,
    run-calls inner messages
        (λ h. is_stopped-not_panicked messages (sym (run-state q inner messages) ∙ h)),
  )
