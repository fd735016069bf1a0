-- ===== src/Rpc/Reentrant.antt =====
-- Listeners that call the listener methods while the notification task runs them: the task copies the
-- listeners of an event (`notification_callbacks` of src/rpc/wrpc/client.rs) before it calls them.
use kaspa_python_sdk.Prelude.{
  ◌≡◌, refl, ap, ◌∙◌, sym, Bool, true, false, some, List, [], ◌∷◌, ◌++◌, ok, err, Result-cases, inl,
  inr,
}
use kaspa_python_sdk.Listeners.Python.{Python}
use kaspa_python_sdk.Listeners.Callback.{PyCallback, execute}
use kaspa_python_sdk.Rpc.Events.{NotificationEvent, EventTypes}
use kaspa_python_sdk.Rpc.Listeners.{Event, Callbacks}
use kaspa_python_sdk.Rpc.Node.{Node}
use kaspa_python_sdk.Rpc.Task.{Inner, call_handlers, deliver}
use kaspa_python_sdk.Rpc.Removal.{reached, registered}
use kaspa_python_sdk.Rpc.Views.{Change, after, views, reached-after}

-- `changes` are the calls that a listener makes on an event, before it returns or raises.
module _ (py : Python) (t : EventTypes) (n : Node py t)
    (changes : PyCallback py → py.Obj → List (Change py t)) where
  open py use {Obj}

  pub record Live : Type 0 where
    pub calls : List (PyCallback py)
    pub panicked : Bool
    pub callbacks : Callbacks py t

  -- the loop over the copied listeners, with the table beside it
  unfoldable pub live_handlers : Obj → List (PyCallback py) → Callbacks py t → Live
  live_handlers event [] callbacks = record { calls = []; panicked = false; callbacks = callbacks }
  live_handlers event (handler ∷ handlers) callbacks =
      let changed = after py t (changes handler event) callbacks in
      let rest = live_handlers event handlers changed in
      elim (execute py handler event) [
        | ok _ ↦ record {
          calls = handler ∷ rest.calls;
          panicked = rest.panicked;
          callbacks = rest.callbacks;
        }
        | err _ ↦ record { calls = handler ∷ []; panicked = true; callbacks = changed }
      ]

  unfoldable pub live : Callbacks py t → Event py t → Obj → Live
  live callbacks event built = live_handlers built (reached py t callbacks event) callbacks

  -- all calls that these listeners make, in order
  abbrev pub made_by : Obj → List (PyCallback py) → List (Change py t)
  made_by event [] = []
  made_by event (handler ∷ handlers) = changes handler event ++ made_by event handlers

  after-append :
      (first second : List (Change py t)) (callbacks : Callbacks py t)
      → after py t (first ++ second) callbacks ≡ after py t second (after py t first callbacks)
  after-append [] second callbacks = refl
  after-append (c ∷ first) second callbacks = after-append first second _

  live_handlers-call_handlers :
      (event : Obj) (handlers : List (PyCallback py)) (callbacks : Callbacks py t)
      → let done = live_handlers event handlers callbacks in
        (done.calls ≡ (call_handlers py t n (some event) handlers).0)
        × (done.panicked ≡ (call_handlers py t n (some event) handlers).1)
        × (done.callbacks ≡ after py t (made_by event done.calls) callbacks)
  unfolding live_handlers call_handlers
  live_handlers-call_handlers event [] callbacks = (refl, refl, refl)
  live_handlers-call_handlers event (handler ∷ handlers) callbacks =
      let changed = after py t (changes handler event) callbacks in
      let (called, panics, table) = live_handlers-call_handlers event handlers changed in
      elim (Result-cases (execute py handler event)) [
        | inl (x, e) ↦
            rw (live_handlers, call_handlers, e)
              (
                ap (λ later. handler ∷ later) called,
                panics,
                table ∙ sym (after-append (changes handler event) _ callbacks),
              )
        | inr (x, e) ↦
            rw (live_handlers, call_handlers, e)
              (refl, refl, sym (after-append (changes handler event) [] callbacks))
      ]

  -- An event calls the listeners that are registered when it comes, in order, up to the first that
  -- raises, whatever they do to the table while they run; a later event then reaches what their calls of
  -- the listener methods, those of one after those of the other, make of the listeners that were there.
  pub live-deliver :
      (inner : Inner py t n) (event : Event py t) (built : Obj) (later : Event py t)
      → let done = live inner.callbacks event built in
        (done.calls ≡ (deliver py t n inner event (some built)).calls)
        × (done.panicked ≡ (deliver py t n inner event (some built)).panicked)
        × (reached py t done.callbacks later
            ≡ views py t
                (made_by built done.calls)
                (registered py t inner.callbacks)
                NotificationEvent.all
              ++ views py t (made_by built done.calls) (registered py t inner.callbacks) later)
  unfolding live deliver
  live-deliver inner event built later =
      let handlers = reached py t inner.callbacks event in
      let (called, panics, table) = live_handlers-call_handlers built handlers inner.callbacks in
      (
        called,
        panics,
        ap (λ callbacks. reached py t callbacks later) table
            ∙ reached-after py t (made_by built (live inner.callbacks event built).calls)
                inner.callbacks later,
      )
