-- ===== src/Processor/Task.antt =====
-- The notification task of `UtxoProcessor` (src/wallet/core/utxo/processor.rs): one turn of its
-- loop over the control requests and the events that wait, and the loop on fuel.
use kaspa_python_sdk.Prelude.{
  ℕ, zero, suc, String, Bool, true, false, ◌&&◌, ◌||◌, Option, none, some, List, [], ◌∷◌, ◌++◌,
  Result, ok, err, PyResult, ◌>>=◌, unwrap_or, if◌then◌else◌, ◌==◌,
}
use kaspa_python_sdk.Listeners.Python.{Python}
use kaspa_python_sdk.Listeners.Callback.{PyCallback, execute}
use kaspa_python_sdk.Processor.Events.{Casts, EventKinds}
use kaspa_python_sdk.Processor.Listeners.{Callbacks, callbacks_for}

-- The wallet's events, and the Python objects that serde makes of them.
pub record Wallet (py : Python) (k : EventKinds) : Type 1 where
  pub Notification : Type 0
  pub event_kind : Notification → k.EventKind
  pub to_pyobject : Notification → Result String py.Obj
  pub PyDict : Type 0
  pub cast_dict : py.Obj → Option PyDict
  pub of_dict : PyDict → py.Obj
  pub of_none : py.Obj
  pub get_item : PyDict → String → PyResult (Option py.Obj)
  pub set_item : PyDict → String → py.Obj → PyResult PyDict

-- How a run of the loop ends.
pub data End : Type 0 where
  stopped waiting : End

module _ (py : Python) (c : Casts py) (k : EventKinds) (w : Wallet py k) where
  open py use {Obj}
  open k use {EventKind}
  open w use {Notification, PyDict, cast_dict, get_item, set_item}

  -- the kinds whose `data` holds a transaction record
  unfoldable pub is_record : EventKind → Bool
  is_record event_type =
      ◌==◌ ⦃same = k.eq⦄ event_type k.pending
      || ◌==◌ ⦃same = k.eq⦄ event_type k.reorg
      || ◌==◌ ⦃same = k.eq⦄ event_type k.stasis
      || ◌==◌ ⦃same = k.eq⦄ event_type k.maturity
      || ◌==◌ ⦃same = k.eq⦄ event_type k.discovery

  unfoldable pub with_record : PyDict → Option Obj → PyResult PyDict
  with_record event none = ok event
  with_record event (some found) = set_item event "data" found

  -- `{ data: { record } }` becomes `{ data: record }`
  unfoldable pub flatten_record : PyDict → PyResult PyDict
  flatten_record event = do
    data_any ← get_item event "data"
    elim data_any [
      | none ↦ ok event
      | some object ↦ elim (cast_dict object) [
        | none ↦ ok event
        | some data_dict ↦ (do found ← get_item data_dict "record"; with_record event found)
      ]
    ]

  unfoldable pub normalize_event_payload : EventKind → PyDict → PyResult PyDict
  normalize_event_payload event_type event = do
    found ← get_item event "data"
    elim found [
      | none ↦ set_item event "data" w.of_none
      | some _ ↦ if is_record event_type then flatten_record event else ok event
    ]

  -- The dict a listener is called with: none where serde fails or gives no dict, which is logged.
  -- Where the normalisation raises, the dict is passed as it was.
  unfoldable pub payload : Notification → Option PyDict
  payload notification = elim (w.to_pyobject notification) [
    | err _ ↦ none
    | ok event_any ↦ elim (cast_dict event_any) [
      | none ↦ none
      | some event ↦ elim (normalize_event_payload (w.event_kind notification) event) [
        | ok normalized ↦ some normalized
        | err _ ↦ some event
      ]
    ]
  ]

  pub record Call : Type 0 where
    pub handler : PyCallback py
    pub event : PyDict
    pub result : PyResult Obj

  -- The calls for one event, with their results: an error is logged, and the walk goes on.
  unfoldable pub call_handlers : Option PyDict → List (PyCallback py) → List Call
  call_handlers built [] = []
  call_handlers none (handler ∷ handlers) = call_handlers none handlers
  call_handlers (some event) (handler ∷ handlers) =
      record { handler = handler; event = event; result = execute py handler (w.of_dict event) }
      ∷ call_handlers (some event) handlers

  unfoldable pub on_notification : Callbacks py c k → Notification → List Call
  on_notification callbacks notification =
      call_handlers (payload notification)
        (unwrap_or [] (callbacks_for py c k callbacks (w.event_kind notification)))

  -- What the loop reads: the stop requests and the events that wait, whether the channel of the
  -- events is closed, and the variable of the loop.
  pub record Loop : Type 0 where
    pub requests : ℕ
    pub queue : List Notification
    pub closed : Bool
    pub shutdown_requested : Bool

  pub data Turn : Type 0 where
    breaks waits : Turn
    takes : Loop → List Notification → Turn

  is_empty : List Notification → Bool
  is_empty [] = true
  is_empty (_ ∷ _) = false

  -- `msg = channel.receiver.recv()`: a closed channel still hands out the events that wait
  unfoldable pub receive : Loop → List Notification → Turn
  receive loop [] = if loop.closed then breaks else waits
  receive loop (event ∷ events) = takes (record loop { queue = events }) (event ∷ [])

  -- `select_biased!`: a stop request comes before an event
  unfoldable pub select : Loop → ℕ → Turn
  select loop zero = receive loop loop.queue
  select loop (suc requests) =
      takes (record loop { requests = requests; shutdown_requested = true }) []

  -- One turn: it ends the loop, waits, or takes a request or an event.
  unfoldable pub turn : Loop → Turn
  unfolding is_empty
  turn loop =
      if loop.shutdown_requested && is_empty loop.queue then breaks else select loop loop.requests

  pub record Run : Type 0 where
    pub calls : List Call
    pub left : Loop
    pub end : End

  -- `call_handlers` for what a turn took, in front of the later calls
  unfoldable pub before : List Call → Option Run → Option Run
  before calls none = none
  before calls (some r) = some (record r { calls = calls ++ r.calls })

  unfoldable pub deliver : Callbacks py c k → List Notification → List Call
  deliver callbacks [] = []
  deliver callbacks (event ∷ events) = on_notification callbacks event ++ deliver callbacks events

  -- The turns up to the end of the loop or to a wait; none where the fuel runs out.
  unfoldable pub run : ℕ → Callbacks py c k → Loop → Option Run
  run zero callbacks loop = none
  run (suc fuel) callbacks loop = elim (turn loop) [
    | breaks ↦ some (record { calls = []; left = loop; end = stopped })
    | waits ↦ some (record { calls = []; left = loop; end = waiting })
    | takes rest events ↦ before (deliver callbacks events) (run fuel callbacks rest)
  ]
