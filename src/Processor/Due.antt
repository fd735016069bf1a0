-- ===== src/Processor/Due.antt =====
-- Which calls of listeners the events of `UtxoProcessor` are due (src/wallet/core/utxo/processor.rs).
use kaspa_python_sdk.Prelude.{
  ◌≡◌, refl, ap, ap₂, Option, none, some, List, [], ◌∷◌, ◌++◌, map, ok, err, Option-cases,
  Result-cases, inl, inr,
}
use kaspa_python_sdk.Listeners.Python.{Python}
use kaspa_python_sdk.Listeners.Callback.{PyCallback, execute}
use kaspa_python_sdk.Processor.Events.{Casts, EventKinds}
use kaspa_python_sdk.Processor.Listeners.{Callbacks}
use kaspa_python_sdk.Processor.Targets.{registered, reached-registered}
use kaspa_python_sdk.Processor.Task.{
  Wallet, Call, call_handlers, on_notification, payload, normalize_event_payload, deliver,
}

module _ (py : Python) (c : Casts py) (k : EventKinds) (w : Wallet py k) where
  open w use {Notification, PyDict}

  -- the dict that serde makes of an event, if it makes one
  abbrev pub built : Notification → Option PyDict
  built m = elim (w.to_pyobject m) [ ok object ↦ w.cast_dict object | err _ ↦ none ]

  -- the dict as the listeners get it: normalised, or as it was where that raises
  abbrev pub handed : Notification → PyDict → PyDict
  handed m event = elim (normalize_event_payload py c k w (w.event_kind m) event) [
    | ok normalized ↦ normalized
    | err _ ↦ event
  ]

  -- a call of each listener, with what it returns or raises
  abbrev pub calls_with : List (PyCallback py) → PyDict → List (Call py c k w)
  calls_with handlers event =
      map
        (λ handler. record {
          handler = handler;
          event = event;
          result = execute py handler (w.of_dict event);
        })
        handlers

  -- the calls that an event is due: of the listeners for all events, and of those for its kind
  abbrev pub due : Callbacks py c k → Notification → List (Call py c k w)
  due callbacks m = elim (built m) [
    | none ↦ []
    | some event ↦
        calls_with
          (registered py c k callbacks k.all ++ registered py c k callbacks (w.event_kind m))
          (handed m event)
  ]

  abbrev pub all_due : Callbacks py c k → List Notification → List (Call py c k w)
  all_due callbacks [] = []
  all_due callbacks (m ∷ later) = due callbacks m ++ all_due callbacks later

  call_handlers-none : (handlers : List (PyCallback py)) → call_handlers py c k w none handlers ≡ []
  unfolding call_handlers
  call_handlers-none [] = refl
  call_handlers-none (handler ∷ handlers) = call_handlers-none handlers

  call_handlers-calls_with :
      (event : PyDict) (handlers : List (PyCallback py))
      → call_handlers py c k w (some event) handlers ≡ calls_with handlers event
  unfolding call_handlers
  call_handlers-calls_with event [] = refl
  call_handlers-calls_with event (handler ∷ handlers) =
      ap
        (◌∷◌ (record {
          handler = handler;
          event = event;
          result = execute py handler (w.of_dict event);
        }))
        (call_handlers-calls_with event handlers)

  on_notification-due :
      (callbacks : Callbacks py c k) (m : Notification)
      → on_notification py c k w callbacks m ≡ due callbacks m
  unfolding on_notification payload
  on_notification-due callbacks m =
      let reached = reached-registered py c k callbacks (w.event_kind m) in
      elim (Result-cases (w.to_pyobject m)) [
        | inr (e, fails) ↦ rw (on_notification, payload, due, fails) (call_handlers-none _)
        | inl (object, made) ↦ elim (Option-cases (w.cast_dict object)) [
          | inl other ↦ rw (on_notification, payload, due, made, other) (call_handlers-none _)
          | inr (event, cast) ↦
              elim (Result-cases (normalize_event_payload py c k w (w.event_kind m) event)) [
                | inl (normal, n) ↦
                    rw (on_notification, payload, due, handed, made, cast, n, reached)
                      (call_handlers-calls_with normal _)
                | inr (e, n) ↦
                    rw (on_notification, payload, due, handed, made, cast, n, reached)
                      (call_handlers-calls_with event _)
              ]
        ]
      ]

  pub deliver-all_due :
      (callbacks : Callbacks py c k) (queue : List Notification)
      → deliver py c k w callbacks queue ≡ all_due callbacks queue
  unfolding deliver
  deliver-all_due callbacks [] = refl
  deliver-all_due callbacks (m ∷ later) =
      ap₂ (λ calls rest. calls ++ rest) (on_notification-due callbacks m)
        (deliver-all_due callbacks later)
