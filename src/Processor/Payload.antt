-- ===== src/Processor/Payload.antt =====
-- Which listeners of `UtxoProcessor` an event reaches, and what they are called with.
use kaspa_python_sdk.Prelude.{
  ◌≡◌, ◌≢◌, refl, ap, String, Option, none, some, List, [], ◌∷◌, map, ok, err, ◌==◌, if◌then◌else◌,
  eq_of_string, arith, unwrap_or, PyResult, Option-cases, Bool-cases, inl, inr,
}
use text.Mathlib.TextEquality.{eq_iff}
use kaspa_python_sdk.Listeners.Python.{Python}
use kaspa_python_sdk.Listeners.Callback.{PyCallback, execute}
use kaspa_python_sdk.Processor.Events.{Casts, EventKinds}
use kaspa_python_sdk.Processor.Listeners.{Callbacks, callbacks_for}
use kaspa_python_sdk.Processor.Task.{
  Wallet, is_record, with_record, flatten_record, normalize_event_payload, payload, call_handlers,
  on_notification,
}

module _ (py : Python) (c : Casts py) (k : EventKinds) (w : Wallet py k) where
  open py use {Obj}
  open k use {EventKind}
  open w use {Notification, PyDict, cast_dict, get_item, set_item}

  -- the listeners that an event of this kind reaches, in order
  abbrev pub reached : Callbacks py c k → EventKind → List (PyCallback py)
  reached callbacks event = unwrap_or [] (callbacks_for py c k callbacks event)

  call_handlers-handlers :
      (event : PyDict) (handlers : List (PyCallback py))
      → map (λ call. call.handler) (call_handlers py c k w (some event) handlers) ≡ handlers
  unfolding call_handlers
  call_handlers-handlers event [] = refl
  call_handlers-handlers event (handler ∷ handlers) =
      ap (◌∷◌ handler) (call_handlers-handlers event handlers)

  call_handlers-results :
      (event : PyDict) (handlers : List (PyCallback py))
      → map (λ call. call.result) (call_handlers py c k w (some event) handlers)
        ≡ map (λ handler. execute py handler (w.of_dict event)) handlers
  unfolding call_handlers
  call_handlers-results event [] = refl
  call_handlers-results event (handler ∷ handlers) =
      ap (◌∷◌ (execute py handler (w.of_dict event))) (call_handlers-results event handlers)

  -- Where a dict is made of the event, every listener that the event reaches is called once, in
  -- order and on that dict, whatever the listeners before it did: one that raises stops no other.
  pub on_notification-handlers :
      (callbacks : Callbacks py c k) (m : Notification) (event : PyDict)
      → payload py c k w m ≡ some event
      → (map (λ call. call.handler) (on_notification py c k w callbacks m)
          ≡ reached callbacks (w.event_kind m))
        × (map (λ call. call.result) (on_notification py c k w callbacks m)
            ≡ map
                (λ handler. execute py handler (w.of_dict event))
                (reached callbacks (w.event_kind m)))
  unfolding on_notification
  on_notification-handlers callbacks m event built =
      (rw built (call_handlers-handlers event _), rw built (call_handlers-results event _))

  -- What pyo3 documents of a dict: a value that is set is found under its key, and no other key
  -- changes.
  pub record IsDict : Type 0 where
    pub gets : (d : PyDict) (key : String) → (o : Option Obj) × (get_item d key ≡ ok o)
    pub sets :
        (d : PyDict) (key : String) (v : Obj)
        → (d' : PyDict) × (set_item d key v ≡ ok d')
          × ((j : String) → get_item d' j ≡ (if key == j then ok (some v) else get_item d j))

  -- the `record` of a dict that an object is
  abbrev pub record_of : Obj → Option Obj
  record_of object = elim (cast_dict object) [
    | none ↦ none
    | some d ↦ elim (get_item d "record") [ ok found ↦ found | err _ ↦ none ]
  ]

  -- what `data` is in a normalised event
  abbrev pub normal_data : EventKind → Option Obj → Obj
  normal_data event_type none = w.of_none
  normal_data event_type (some object) =
      if is_record py c k w event_type then unwrap_or object (record_of object) else object

  -- the outcome is a dict with this `data`, and under any other key with what the event has there
  abbrev pub HasData : PyDict → Obj → PyResult PyDict → Type 0
  HasData event value outcome =
      (normal : PyDict) × (outcome ≡ ok normal)
      × (get_item normal "data" ≡ ok (some value))
      × ((j : String) → j ≢ "data" → get_item normal j ≡ get_item event j)

  set_item-HasData :
      IsDict → (event : PyDict) (value : Obj) → HasData event value (set_item event "data" value)
  set_item-HasData law event value =
      let (normal, done, found) = law.sets event "data" value in
      (normal, done, found "data", λ j other. ground (arith, found j, eq_iff "data" j))

  flatten_record-HasData :
      IsDict
      → (event : PyDict) (object : Obj) → get_item event "data" ≡ ok (some object)
      → HasData event (unwrap_or object (record_of object)) (flatten_record py c k w event)
  unfolding flatten_record with_record
  flatten_record-HasData law event object h = elim (Option-cases (cast_dict object)) [
    | inl e ↦ rw (h, e, record_of) (event, refl, h, λ j other. refl)
    | inr (d, e) ↦ held d e (law.gets d "record").0 (law.gets d "record").1
  ]
    where
      held :
          (d : PyDict)
          → cast_dict object ≡ some d
          → (found : Option Obj) → get_item d "record" ≡ ok found
          → HasData event (unwrap_or object (record_of object)) (flatten_record py c k w event)
      held d e none g = rw (h, e, g, record_of) (event, refl, h, λ j other. refl)
      held d e (some r) g = rw (h, e, g, record_of) (set_item-HasData law event r)

  -- If the dicts are those of Python, a normalised event has a `data`: `None` where it had none, and
  -- for the events of a transaction record the `record` of a dict that holds one; any other `data`
  -- and every other key stay as they were.
  pub normalize_event_payload-HasData :
      IsDict
      → (event_type : EventKind) (event : PyDict) (found : Option Obj)
      → get_item event "data" ≡ ok found
      → HasData event
          (normal_data event_type found)
          (normalize_event_payload py c k w event_type event)
  unfolding normalize_event_payload
  normalize_event_payload-HasData law event_type event none h =
      rw h (set_item-HasData law event w.of_none)
  normalize_event_payload-HasData law event_type event (some object) h =
      elim (Bool-cases (is_record py c k w event_type)) [
        | inl e ↦ rw (h, e) (flatten_record-HasData law event object h)
        | inr e ↦ rw (h, e) (event, refl, h, λ j other. refl)
      ]
