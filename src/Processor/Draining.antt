-- ===== src/Processor/Draining.antt =====
-- The loop of the notification task of `UtxoProcessor` ends or waits, and only after it has
-- delivered all that waited.
use kaspa_python_sdk.Prelude.{
  ℕ, zero, suc, ◌+◌, ◌<◌, ◌≡◌, refl, ap, ◌∙◌, sym, Bool, true, false, ◌||◌, Option, some, List, [],
  ◌∷◌, ◌++◌, length, ltb, if◌then◌else◌, arith, append-nil,
}
use kaspa_python_sdk.Listeners.Python.{Python}
use kaspa_python_sdk.Processor.Events.{Casts, EventKinds}
use kaspa_python_sdk.Processor.Listeners.{Callbacks}
use kaspa_python_sdk.Processor.Due.{all_due, deliver-all_due}
use kaspa_python_sdk.Processor.Task.{
  Wallet, Loop, Turn, turn, select, receive, End, Run, before, deliver, run,
}

module _ (py : Python) (c : Casts py) (k : EventKinds) (w : Wallet py k) where
  open w use {Notification, PyDict}

  -- how a loop ends that no one else touches: a stop was asked for or the channel is closed
  abbrev pub end_of : Loop py c k w → End
  end_of loop =
      if loop.shutdown_requested || ltb 0 loop.requests || loop.closed
      then End.stopped
      else End.waiting

  -- the run ended as it should, and has delivered what waited
  abbrev HasDelivered : Callbacks py c k → Loop py c k w → Option (Run py c k w) → Type 0
  HasDelivered callbacks loop ran =
      (r : Run py c k w) × (ran ≡ some r)
      × (r.calls ≡ deliver py c k w callbacks loop.queue)
      × (r.left.queue ≡ [])
      × (r.end ≡ end_of loop)

  abbrev loop_at : ℕ → List Notification → Bool → Bool → Loop py c k w
  loop_at requests queue closed shutdown_requested = record {
    requests = requests;
    queue = queue;
    closed = closed;
    shutdown_requested = shutdown_requested;
  }

  turn_event :
      (event : Notification) (queue : List Notification) (closed requested : Bool)
      → turn py c k w (loop_at zero (event ∷ queue) closed requested)
        ≡ Turn.takes (loop_at zero queue closed requested) (event ∷ [])
  unfolding turn select receive
  turn_event event queue closed true = refl
  turn_event event queue closed false = refl

  turn_request :
      (requests : ℕ) (event : Notification) (queue : List Notification) (closed requested : Bool)
      → turn py c k w (loop_at (suc requests) (event ∷ queue) closed requested)
        ≡ Turn.takes (loop_at requests (event ∷ queue) closed true) []
  unfolding turn select
  turn_request requests event queue closed true = refl
  turn_request requests event queue closed false = refl

  -- one turn more
  HasDelivered-step :
      (callbacks : Callbacks py c k) (fuel : ℕ) (loop rest : Loop py c k w)
      (events : List Notification)
      → turn py c k w loop ≡ Turn.takes rest events
      → deliver py c k w callbacks loop.queue
        ≡ deliver py c k w callbacks events ++ deliver py c k w callbacks rest.queue
      → end_of rest ≡ end_of loop
      → HasDelivered callbacks rest (run py c k w fuel callbacks rest)
      → HasDelivered callbacks loop (run py c k w (suc fuel) callbacks loop)
  unfolding run before
  HasDelivered-step callbacks fuel loop rest events t same ends_alike (r, ran, calls, empty, ends) =
      (
        record r { calls = deliver py c k w callbacks events ++ r.calls },
        rw (t, run) (ap (before py c k w (deliver py c k w callbacks events)) ran),
        ap (λ later. deliver py c k w callbacks events ++ later) calls ∙ sym same,
        empty,
        ends ∙ ends_alike,
      )

  run-HasDelivered :
      (callbacks : Callbacks py c k) (fuel requests : ℕ) (queue : List Notification)
      (closed requested : Bool)
      → requests + length queue < fuel
      → HasDelivered callbacks
          (loop_at requests queue closed requested)
          (run py c k w fuel callbacks (loop_at requests queue closed requested))
  unfolding run turn select receive deliver
  run-HasDelivered callbacks zero requests queue closed requested h = elim h [ ]
  run-HasDelivered callbacks (suc fuel) zero [] true true h = (_, refl, refl, refl, refl)
  run-HasDelivered callbacks (suc fuel) zero [] false true h = (_, refl, refl, refl, refl)
  run-HasDelivered callbacks (suc fuel) zero [] true false h = (_, refl, refl, refl, refl)
  run-HasDelivered callbacks (suc fuel) zero [] false false h = (_, refl, refl, refl, refl)
  run-HasDelivered callbacks (suc fuel) zero (event ∷ queue) closed requested h =
      HasDelivered-step callbacks fuel (loop_at zero (event ∷ queue) closed requested)
        (loop_at zero queue closed requested) (event ∷ []) (turn_event event queue closed requested)
        (ap (λ calls. calls ++ deliver py c k w callbacks queue) (sym (append-nil _))) refl
        (run-HasDelivered callbacks fuel zero queue closed requested (omega arith))
  run-HasDelivered callbacks (suc fuel) (suc requests) [] closed true h =
      (_, refl, refl, refl, refl)
  run-HasDelivered callbacks (suc fuel) (suc requests) [] closed false h =
      HasDelivered-step callbacks fuel (loop_at (suc requests) [] closed false)
        (loop_at requests [] closed true) [] refl refl (ground arith)
        (run-HasDelivered callbacks fuel requests [] closed true (omega arith))
  run-HasDelivered callbacks (suc fuel) (suc requests) (event ∷ queue) closed requested h =
      HasDelivered-step callbacks fuel (loop_at (suc requests) (event ∷ queue) closed requested)
        (loop_at requests (event ∷ queue) closed true) []
        (turn_request requests event queue closed requested) refl (ground arith)
        (run-HasDelivered callbacks fuel requests (event ∷ queue) closed true (omega arith))

  -- the run ended as it should, nothing waits, and the calls made are those that the events are due
  abbrev pub HasDrained : Callbacks py c k → Loop py c k w → Option (Run py c k w) → Type 0
  HasDrained callbacks loop ran =
      (r : Run py c k w) × (ran ≡ some r)
      × (r.calls ≡ all_due py c k w callbacks loop.queue)
      × (r.left.queue ≡ [])
      × (r.end ≡ end_of loop)

  -- The loop comes to its end or to a wait within as many turns as requests and events wait, and one
  -- more. By then it has called, for every event that waited of which serde makes a dict, in order,
  -- the listeners for all events and then those for its kind, each on the dict, normalised where
  -- that does not raise, and whatever the others raise; it has made no other call. No event waits any
  -- more, and the loop has stopped exactly if a stop was asked for or the channel is closed.
  pub run_drains :
      (callbacks : Callbacks py c k) (loop : Loop py c k w) (fuel : ℕ)
      → loop.requests + length loop.queue < fuel
      → HasDrained callbacks loop (run py c k w fuel callbacks loop)
  run_drains callbacks loop fuel enough =
      let (r, ran, calls, empty, ends) =
        run-HasDelivered callbacks fuel loop.requests loop.queue loop.closed loop.shutdown_requested
          enough in
      (r, ran, calls ∙ deliver-all_due py c k w callbacks loop.queue, empty, ends)
