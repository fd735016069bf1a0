-- ===== src/Processor/Targets.antt =====
-- What the listener methods of `UtxoProcessor` change, over the targets that they parse.
use kaspa_python_sdk.Prelude.{
  ℕ, ◌+◌, Bool, true, false, ◌&&◌, Option, none, some, List, [], ◌∷◌, ◌++◌, ◌==◌, if◌then◌else◌,
  unwrap_or, ok, ◌≡◌, refl, arith, count_if, count_if-append, retain, retain_idem, contains, ◌⊎◌,
}
use kaspa_python_sdk.Listeners.Python.{Python}
use kaspa_python_sdk.Listeners.Callback
use kaspa_python_sdk.Listeners.Callback.{PyCallback}
use kaspa_python_sdk.Listeners.Table.{push, remove, retain_at}
use kaspa_python_sdk.Listeners.Laws.{
  listed, get-remove, listed-push, listed-retain_at, handlers-listed, handlers-retain_all,
}
use kaspa_python_sdk.Processor.Events.{Casts, EventKinds, parse_event_targets}
use kaspa_python_sdk.Processor.Listeners.{
  Callbacks, callbacks_for, push_each, add_event_listener, listener_of, others, retain_each,
  remove_each, remove_targets, remove_event_listener, is_none,
}

module _ (py : Python) (c : Casts py) (k : EventKinds) where
  open py use {Obj, Kwargs, empty_kwargs, is_callable}
  open k use {EventKind}

  -- the listeners that an event reaches, in order, and those registered under one key
  abbrev pub reached : Callbacks py c k → EventKind → List (PyCallback py)
  reached callbacks event = unwrap_or [] (callbacks_for py c k callbacks event)

  abbrev pub registered : Callbacks py c k → EventKind → List (PyCallback py)
  registered callbacks key = listed ⦃e = k.eq⦄ callbacks key

  pub reached-registered :
      (callbacks : Callbacks py c k) (event : EventKind)
      → reached callbacks event ≡ registered callbacks k.all ++ registered callbacks event
  unfolding callbacks_for
  reached-registered callbacks event = handlers-listed ⦃e = k.eq⦄ k.all callbacks event

  -- how often a key occurs among the targets
  abbrev pub hits : List EventKind → EventKind → ℕ
  hits targets key = count_if (λ target. ◌==◌ ⦃same = k.eq⦄ target key) targets

  count_if-push_each :
      (q : PyCallback py → Bool) (callbacks : Callbacks py c k) (targets : List EventKind)
      (entry : PyCallback py) (key : EventKind)
      → count_if q (registered (push_each py c k callbacks targets entry) key)
        ≡ count_if q (registered callbacks key) + (if q entry then hits targets key else 0)
  unfolding push_each
  count_if-push_each q callbacks [] entry key = ground arith
  count_if-push_each q callbacks (target ∷ targets) entry key = ground (
    arith,
    count_if-push_each q (push ⦃e = k.eq⦄ callbacks target entry) targets entry key,
    listed-push ⦃e = k.eq⦄ callbacks target entry key,
    count_if-append q (registered callbacks key) (entry ∷ []),
  )

  registered-retain_each :
      (callbacks : Callbacks py c k) (targets : List EventKind) (callback : Obj) (key : EventKind)
      → registered (retain_each py c k callbacks targets callback) key ≡ (
          if contains ⦃e = k.eq⦄ targets key
          then retain (others py c k callback) (registered callbacks key)
          else registered callbacks key)
  unfolding retain_each
  registered-retain_each callbacks [] callback key = refl
  registered-retain_each callbacks (target ∷ targets) callback key = ground (
    arith,
    registered-retain_each (retain_at ⦃e = k.eq⦄ callbacks target (others py c k callback)) targets
        callback key,
    listed-retain_at ⦃e = k.eq⦄ callbacks target (others py c k callback) key,
    retain_idem (others py c k callback) (registered callbacks key),
  )

  registered-remove_each :
      (callbacks : Callbacks py c k) (targets : List EventKind) (key : EventKind)
      → registered (remove_each py c k callbacks targets) key
        ≡ (if contains ⦃e = k.eq⦄ targets key then [] else registered callbacks key)
  unfolding remove_each
  registered-remove_each callbacks [] key = refl
  registered-remove_each callbacks (target ∷ targets) key = ground (
    arith,
    registered-remove_each (remove ⦃e = k.eq⦄ callbacks target) targets key,
    get-remove ⦃e = k.eq⦄ callbacks target key,
  )

  -- If the targets parse, `add_event_listener` succeeds, and an event then reaches the new entry
  -- once for each time that the targets name it or `all`, and every other entry as often as
  -- before: stated for the entries counted by any test.
  pub add_event_listener-count_if :
      (callbacks : Callbacks py c k) (target callback : Obj) (args : List Obj)
      (kwargs : Option Kwargs) {targets : List EventKind} (q : PyCallback py → Bool)
      (event : EventKind)
      → parse_event_targets py c k target ≡ ok targets
      → let (after, result) =
          add_event_listener py c k callbacks target (some callback) args kwargs in
        (result ≡ ok tt)
        × (count_if q (reached after event)
            ≡ count_if q (reached callbacks event)
              + (if q (Callback.new py callback args (unwrap_or empty_kwargs kwargs))
                  then hits targets k.all + hits targets event
                  else 0))
  unfolding add_event_listener
  add_event_listener-count_if callbacks target callback args kwargs {targets} q event parsed =
      rw (parsed, add_event_listener, listener_of) (refl, counted)
    where
      entry : PyCallback py
      entry = Callback.new py callback args (unwrap_or empty_kwargs kwargs)

      counted :
          count_if q (reached (push_each py c k callbacks targets entry) event)
          ≡ count_if q (reached callbacks event)
            + (if q entry then hits targets k.all + hits targets event else 0)
      counted = rw (reached-registered (push_each py c k callbacks targets entry) event) (
          rw (reached-registered callbacks event) (
            rw (count_if-append, count_if-append)
              (ground (
                arith,
                count_if-push_each q callbacks targets entry k.all,
                count_if-push_each q callbacks targets entry event,
              ))))

  -- A listener method that does not succeed leaves the table as it was.
  pub listener_error_unchanged :
      (callbacks : Callbacks py c k) (target : Obj) (callback : Option Obj) (args : List Obj)
      (kwargs : Option Kwargs)
      → (let (after, result) = add_event_listener py c k callbacks target callback args kwargs in
          (result ≡ ok tt) ⊎ (after ≡ callbacks))
        × (let (after, result) = remove_event_listener py c k callbacks target callback in
            (result ≡ ok tt) ⊎ (after ≡ callbacks))
  unfolding add_event_listener remove_event_listener
  listener_error_unchanged callbacks target callback args kwargs = (ground arith, ground arith)

  -- `remove_event_listener` with a callable alone drops exactly its entries from what every event
  -- reaches, and succeeds.
  pub remove_event_listener_callable :
      (callbacks : Callbacks py c k) (function : Obj) (event : EventKind)
      → is_callable function ≡ true
      → let (after, result) = remove_event_listener py c k callbacks function none in
        (result ≡ ok tt)
        × (reached after event ≡ retain (others py c k function) (reached callbacks event))
  unfolding remove_event_listener callbacks_for
  remove_event_listener_callable callbacks function event callable =
      rw callable
        (refl, handlers-retain_all ⦃e = k.eq⦄ k.all callbacks (others py c k function) event)

  -- `remove_event_listener` with targets that parse succeeds. Under each key that they name it drops
  -- the entries of the callback, or all entries where none is given; other keys keep their list.
  -- With no callback the target object must not be callable itself.
  pub remove_event_listener_targets :
      (callbacks : Callbacks py c k) (target : Obj) (callback : Option Obj)
      {targets : List EventKind} (key : EventKind)
      → parse_event_targets py c k target ≡ ok targets
      → (is_none py c k callback && is_callable target) ≡ false
      → let (after, result) = remove_event_listener py c k callbacks target callback in
        (result ≡ ok tt)
        × (registered after key ≡ (
            if contains ⦃e = k.eq⦄ targets key
            then elim callback [
              | some f ↦ retain (others py c k f) (registered callbacks key)
              | none ↦ []
            ]
            else registered callbacks key))
  unfolding remove_event_listener
  remove_event_listener_targets callbacks target callback {targets} key parsed named =
      rw (named, parsed) (refl, dropped callback)
    where
      dropped :
          (given : Option Obj)
          → registered (remove_targets py c k callbacks targets given) key ≡ (
              if contains ⦃e = k.eq⦄ targets key
              then elim given [
                | some f ↦ retain (others py c k f) (registered callbacks key)
                | none ↦ []
              ]
              else registered callbacks key)
      dropped (some f) = registered-retain_each callbacks targets f key
      dropped none = registered-remove_each callbacks targets key
