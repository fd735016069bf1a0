-- ===== src/Rpc/Views.antt =====
-- The listener methods of `RpcClient` without the table: what is registered for each event, as a
-- function of the event.
use mathlib.Core.Path.{fun_ext}
use kaspa_python_sdk.Prelude.{
  Option, none, some, List, [], ◌∷◌, ◌++◌, ◌==◌, if◌then◌else◌, retain, unwrap_or, ap, ap₂, ◌∙◌,
  ◌≡◌, refl,
}
use kaspa_python_sdk.Listeners.Python.{Python}
use kaspa_python_sdk.Listeners.Callback
use kaspa_python_sdk.Listeners.Callback.{PyCallback}
use kaspa_python_sdk.Listeners.Table.{get}
use kaspa_python_sdk.Listeners.Laws.{listed-remove, listed-retain_at, listed-retain_all}
use kaspa_python_sdk.Rpc.Events.{PyNotificationEvent, NotificationEvent, EventTypes, from_py}
use kaspa_python_sdk.Rpc.Listeners.{
  Event, Callbacks, key_eq, add_event_listener, others, remove_event_listener, remove_from,
  remove_all_event_listeners,
}
use kaspa_python_sdk.Rpc.Removal.{
  reached, registered, reached-registered, registered-add_event_listener,
}

module _ (py : Python) (t : EventTypes) where
  open py use {Obj, Kwargs, empty_kwargs}

  -- the calls of the listener methods
  pub data Change : Type 0 where
    adds : PyNotificationEvent → Obj → List Obj → Option Kwargs → Change
    removes : PyNotificationEvent → Option Obj → Change
    removes_all : Change

  abbrev change : Change → Callbacks py t → Callbacks py t
  change (adds event callback args kwargs) callbacks =
      add_event_listener py t callbacks event callback args kwargs
  change (removes event callback) callbacks = remove_event_listener py t callbacks event callback
  change removes_all callbacks = remove_all_event_listeners py t callbacks

  -- the table after these calls, the first one first
  abbrev pub after : List Change → Callbacks py t → Callbacks py t
  after [] callbacks = callbacks
  after (c ∷ changes) callbacks = after changes (change c callbacks)

  abbrev pub View : Type 0
  View = Event py t → List (PyCallback py)

  -- a list at one event changed, or at all events where the event is `all`
  abbrev at_event : Event py t → (List (PyCallback py) → List (PyCallback py)) → View → View
  at_event NotificationEvent.all f view = λ key. f (view key)
  at_event event f view =
      λ key. if ◌==◌ ⦃same = key_eq py t⦄ event key then f (view key) else view key

  -- what is left of a list when this callback, or with none every callback, is removed
  abbrev left : Option Obj → List (PyCallback py) → List (PyCallback py)
  left none entries = []
  left (some callback) entries = retain (others py t callback) entries

  abbrev view_of : Change → View → View
  view_of (adds event callback args kwargs) view = λ key.
      if ◌==◌ ⦃same = key_eq py t⦄ (from_py t event) key
      then view key ++ Callback.new py callback args (unwrap_or empty_kwargs kwargs) ∷ []
      else view key
  view_of (removes event callback) view = at_event (from_py t event) (left callback) view
  view_of removes_all view = λ _. []

  abbrev pub views : List Change → View → View
  views [] view = view
  views (c ∷ changes) view = views changes (view_of c view)

  remove_from-at_event :
      (event : Event py t) (callback : Option Obj) (callbacks : Callbacks py t) (key : Event py t)
      → registered py t (remove_from py t callbacks event callback) key
        ≡ at_event event (left callback) (registered py t callbacks) key
  unfolding remove_from get
  remove_from-at_event NotificationEvent.all none callbacks key = refl
  remove_from-at_event NotificationEvent.all (some callback) callbacks key =
      listed-retain_all ⦃e = key_eq py t⦄ callbacks (others py t callback) key
  remove_from-at_event (NotificationEvent.notification event) none callbacks key =
      listed-remove ⦃e = key_eq py t⦄ callbacks (NotificationEvent.notification event) key
  remove_from-at_event (NotificationEvent.rpc_ctl ctl) none callbacks key =
      listed-remove ⦃e = key_eq py t⦄ callbacks (NotificationEvent.rpc_ctl ctl) key
  remove_from-at_event (NotificationEvent.notification event) (some callback) callbacks key =
      listed-retain_at ⦃e = key_eq py t⦄ callbacks (NotificationEvent.notification event)
        (others py t callback) key
  remove_from-at_event (NotificationEvent.rpc_ctl ctl) (some callback) callbacks key =
      listed-retain_at ⦃e = key_eq py t⦄ callbacks (NotificationEvent.rpc_ctl ctl)
        (others py t callback) key

  registered-change :
      (c : Change) (callbacks : Callbacks py t) (key : Event py t)
      → registered py t (change c callbacks) key ≡ view_of c (registered py t callbacks) key
  unfolding remove_event_listener remove_all_event_listeners get
  registered-change (adds event callback args kwargs) callbacks key =
      registered-add_event_listener py t callbacks event callback args kwargs key
  registered-change (removes event callback) callbacks key =
      remove_from-at_event (from_py t event) callback callbacks key
  registered-change removes_all callbacks key = refl

  registered-after :
      (changes : List Change) (callbacks : Callbacks py t) (key : Event py t)
      → registered py t (after changes callbacks) key
        ≡ views changes (registered py t callbacks) key
  registered-after [] callbacks key = refl
  registered-after (c ∷ changes) callbacks key =
      registered-after changes (change c callbacks) key
      ∙ ap (λ view. views changes view key) (fun_ext (registered-change c callbacks))

  -- After any calls of the listener methods on any table, an event reaches what the calls make of
  -- the functions from events to listeners, without the table: first what they make of the listeners
  -- for all events, then of its own.
  pub reached-after :
      (changes : List Change) (callbacks : Callbacks py t) (event : Event py t)
      → reached py t (after changes callbacks) event
        ≡ views changes (registered py t callbacks) NotificationEvent.all
          ++ views changes (registered py t callbacks) event
  reached-after changes callbacks event =
      reached-registered py t (after changes callbacks) event
      ∙ ap₂ ◌++◌ (registered-after changes callbacks NotificationEvent.all)
          (registered-after changes callbacks event)
