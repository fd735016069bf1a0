-- ===== src/Rpc/Removal.antt =====
-- Which listeners an event reaches after the listener methods of `RpcClient`.
use kaspa_python_sdk.Prelude.{
  Option, none, some, List, [], ◌∷◌, ◌++◌, ◌==◌, if◌then◌else◌, retain, unwrap_or, retain-snoc,
  count_if, retain_of_count_if, ap₂, ◌≡◌, ◌≢◌, refl, arith, true, eq_of_nat,
}
use kaspa_python_sdk.Listeners.Python.{Python}
use kaspa_python_sdk.Listeners.Callback
use kaspa_python_sdk.Listeners.Callback.{PyCallback, callback_ptr_eq, callback_ptr_eq-new}
use kaspa_python_sdk.Listeners.Laws.{
  listed, get-remove, listed-push, listed-retain_at, listed-retain_all, handlers-listed,
  handlers-retain_all,
}
use kaspa_python_sdk.Listeners.Table.{get, push, notification_callbacks}
use kaspa_python_sdk.Rpc.Events.{
  PyNotificationEvent, NotificationEvent, EventTypes, from_py, event_eq,
}
use kaspa_python_sdk.Rpc.Listeners.{
  Event, Callbacks, key_eq, callbacks_for, add_event_listener, others, remove_event_listener,
  remove_from,
}

module _ (py : Python) (t : EventTypes) where
  open py use {Obj, Kwargs, empty_kwargs}

  -- the listeners that an event reaches, in order
  abbrev pub reached : Callbacks py t → Event py t → List (PyCallback py)
  reached callbacks event = unwrap_or [] (callbacks_for py t callbacks event)

  -- those registered under one key
  abbrev pub registered : Callbacks py t → Event py t → List (PyCallback py)
  registered callbacks key = listed ⦃e = key_eq py t⦄ callbacks key

  pub reached-registered :
      (callbacks : Callbacks py t) (event : Event py t)
      → reached callbacks event
        ≡ registered callbacks NotificationEvent.all ++ registered callbacks event
  unfolding callbacks_for
  reached-registered callbacks event =
      handlers-listed ⦃e = key_eq py t⦄ NotificationEvent.all callbacks event

  -- `add_event_listener` appends the callback, with its arguments, to the listeners of its event
  -- and changes the listeners of no other event.
  pub registered-add_event_listener :
      (callbacks : Callbacks py t) (event : PyNotificationEvent) (callback : Obj) (args : List Obj)
      (kwargs : Option Kwargs) (key : Event py t)
      → registered (add_event_listener py t callbacks event callback args kwargs) key ≡ (
          if ◌==◌ ⦃same = key_eq py t⦄ (from_py t event) key
          then registered callbacks key
            ++ Callback.new py callback args (unwrap_or empty_kwargs kwargs) ∷ []
          else registered callbacks key)
  unfolding add_event_listener
  registered-add_event_listener callbacks event callback args kwargs key =
      listed-push ⦃e = key_eq py t⦄ callbacks (from_py t event) _ key

  -- `remove_event_listener` with the event `all`: with no callback nothing is left to call for any
  -- event; with a callback exactly its entries are dropped from what each event reaches.
  pub remove_event_listener_all :
      (callbacks : Callbacks py t) (callback : Obj) (event : Event py t)
      → (callbacks_for py t
            (remove_event_listener py t callbacks PyNotificationEvent.all none)
            event
          ≡ none)
        × (reached
              (remove_event_listener py t callbacks PyNotificationEvent.all (some callback))
              event
            ≡ retain (others py t callback) (reached callbacks event))
  unfolding remove_event_listener callbacks_for from_py notification_callbacks get
  remove_event_listener_all callbacks callback event = (
    refl,
    handlers-retain_all ⦃e = key_eq py t⦄ NotificationEvent.all callbacks (others py t callback)
        event,
  )

  registered-remove_from :
      (callbacks : Callbacks py t) (event : Event py t) (callback : Obj) (key : Event py t)
      → event ≢ NotificationEvent.all
      → (registered (remove_from py t callbacks event none) key
          ≡ (if ◌==◌ ⦃same = key_eq py t⦄ event key then [] else registered callbacks key))
        × (registered (remove_from py t callbacks event (some callback)) key ≡ (
            if ◌==◌ ⦃same = key_eq py t⦄ event key
            then retain (others py t callback) (registered callbacks key)
            else registered callbacks key))
  unfolding remove_from
  registered-remove_from callbacks NotificationEvent.all callback key h = absurd (h refl)
  registered-remove_from callbacks event callback key h = (
    ground (arith, get-remove ⦃e = key_eq py t⦄ callbacks event key),
    listed-retain_at ⦃e = key_eq py t⦄ callbacks event (others py t callback) key,
  )

  -- `remove_event_listener` with an event other than `all`: with no callback the listeners of that
  -- event are gone, with a callback exactly its entries are; no other list changes, so what is
  -- registered for `all` is still reached.
  pub remove_event_listener_one :
      (callbacks : Callbacks py t) (event : PyNotificationEvent) (callback : Obj) (key : Event py t)
      → from_py t event ≢ NotificationEvent.all
      → (registered (remove_event_listener py t callbacks event none) key ≡ (
          if ◌==◌ ⦃same = key_eq py t⦄ (from_py t event) key then [] else registered callbacks key))
        × (registered (remove_event_listener py t callbacks event (some callback)) key ≡ (
            if ◌==◌ ⦃same = key_eq py t⦄ (from_py t event) key
            then retain (others py t callback) (registered callbacks key)
            else registered callbacks key))
  unfolding remove_event_listener
  remove_event_listener_one callbacks event callback key h =
      registered-remove_from callbacks (from_py t event) callback key h

  -- no entry has this callback, whatever the event
  abbrev pub IsFresh : Obj → Callbacks py t → Type 0
  IsFresh callback callbacks =
      (key : Event py t)
      → count_if (λ entry. callback_ptr_eq py entry callback) (registered callbacks key) ≡ 0

  registered-remove_from-push :
      (callbacks : Callbacks py t) (event key : Event py t) (callback : Obj) (entry : PyCallback py)
      → IsFresh callback callbacks
      → callback_ptr_eq py entry callback ≡ true
      → registered
          (remove_from py t (push ⦃e = key_eq py t⦄ callbacks event entry) event (some callback))
          key
        ≡ registered callbacks key
  unfolding remove_from
  registered-remove_from-push callbacks NotificationEvent.all key callback entry fresh same =
      ground (
        arith,
        listed-retain_all ⦃e = key_eq py t⦄
            (push ⦃e = key_eq py t⦄ callbacks NotificationEvent.all entry) (others py t callback)
            key,
        listed-push ⦃e = key_eq py t⦄ callbacks NotificationEvent.all entry key,
        retain-snoc (λ c. callback_ptr_eq py c callback) (registered callbacks key) entry
            (fresh key) same,
        retain_of_count_if (λ c. callback_ptr_eq py c callback) (registered callbacks key)
            (fresh key),
      )
  registered-remove_from-push callbacks event key callback entry fresh same = ground (
    arith,
    listed-retain_at ⦃e = key_eq py t⦄ (push ⦃e = key_eq py t⦄ callbacks event entry) event
        (others py t callback) key,
    listed-push ⦃e = key_eq py t⦄ callbacks event entry key,
    retain-snoc (λ c. callback_ptr_eq py c callback) (registered callbacks key) entry (fresh key)
        same,
    retain_of_count_if (λ c. callback_ptr_eq py c callback) (registered callbacks key) (fresh key),
  )

  -- For a callback that is not registered yet, `add_event_listener` followed by
  -- `remove_event_listener` for the same event and callback restores what every event reaches.
  pub remove_event_listener-add_event_listener :
      (callbacks : Callbacks py t) (event : PyNotificationEvent) (callback : Obj) (args : List Obj)
      (kwargs : Option Kwargs)
      → IsFresh callback callbacks
      → (key : Event py t)
      → reached
          (remove_event_listener py t
            (add_event_listener py t callbacks event callback args kwargs)
            event
            (some callback))
          key
        ≡ reached callbacks key
  unfolding add_event_listener remove_event_listener
  remove_event_listener-add_event_listener callbacks event callback args kwargs fresh key =
      rw (reached-registered, reached-registered)
        (ap₂ ◌++◌ (restored NotificationEvent.all) (restored key))
    where
      entry : PyCallback py
      entry = Callback.new py callback args (unwrap_or empty_kwargs kwargs)

      restored :
          (k : Event py t)
          → registered
              (remove_from py t
                (push ⦃e = key_eq py t⦄ callbacks (from_py t event) entry)
                (from_py t event)
                (some callback))
              k
            ≡ registered callbacks k
      restored k =
          registered-remove_from-push callbacks (from_py t event) k callback entry fresh
            (callback_ptr_eq-new py callback args (unwrap_or empty_kwargs kwargs))
