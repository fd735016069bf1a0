-- ===== src/Processor/Methods.antt =====
-- The start and the stop of `UtxoProcessor` (src/wallet/core/utxo/processor.rs) over its wallet
-- processor and its notification task. A call is awaited: what it returns is the state when it is
-- over.
use kaspa_python_sdk.Prelude.{
  String, Bool, true, false, ◌&&◌, Option, Result, ok, err, PyResult, exception, map_err, unwrap_or,
  if◌then◌else◌,
}

-- `UtxoProcessor` of kaspa_wallet_core.
pub record Native : Type 1 where
  pub UtxoProcessor : Type 0
  pub RpcClient : Type 0
  pub NetworkId : Type 0
  -- over the client's node and its control
  pub new : RpcClient → NetworkId → UtxoProcessor
  -- where one is set
  pub network_id : UtxoProcessor → Option NetworkId
  pub set_network_id : NetworkId → UtxoProcessor → UtxoProcessor
  pub start_processor : UtxoProcessor → UtxoProcessor × Result String (Unit {0})
  pub stop_processor : UtxoProcessor → UtxoProcessor × Result String (Unit {0})
  -- whether the control of the client is connected, where there is one
  pub try_rpc_ctl : UtxoProcessor → Option Bool
  pub is_connected : UtxoProcessor → Bool
  pub is_running : UtxoProcessor → Bool

module _ (n : Native) where
  pub record PyUtxoProcessor : Type 0 where
    pub processor : n.UtxoProcessor
    pub rpc : n.RpcClient
    pub notification_task : Bool

  -- The table of listeners is that of `Listeners`, and is empty.
  unfoldable pub ctor : n.RpcClient → n.NetworkId → PyResult PyUtxoProcessor
  ctor rpc network_id =
      ok (record { processor = n.new rpc network_id; rpc = rpc; notification_task = false })

  unfoldable pub get_rpc : PyUtxoProcessor → n.RpcClient
  get_rpc p = p.rpc

  unfoldable pub get_network_id : PyUtxoProcessor → Option n.NetworkId
  get_network_id p = n.network_id p.processor

  unfoldable pub set_network_id : n.NetworkId → PyUtxoProcessor → PyUtxoProcessor
  set_network_id network_id p = record p { processor = n.set_network_id network_id p.processor }

  -- `signal` of the duplex channel: it asks the task to stop and waits for its answer, while the task
  -- changes the state.
  abbrev pub Signal : Type 0
  Signal = PyUtxoProcessor → PyUtxoProcessor × Result String (Unit {0})

  -- whether a task was spawned, and the state
  unfoldable pub start_notification_task : PyUtxoProcessor → Bool × PyUtxoProcessor
  start_notification_task p =
      if p.notification_task then (false, p) else (true, record p { notification_task = true })

  unfoldable pub stop_notification_task :
      Signal → PyUtxoProcessor → PyUtxoProcessor × Result String (Unit {0})
  stop_notification_task signal p =
      let (answered, done) = signal p in
      if p.notification_task
      then elim done [
        | err e ↦ (answered, err e)
        | ok _ ↦ (record answered { notification_task = false }, ok tt)
      ]
      else (p, ok tt)

  -- a start that fails stops the task again if it has spawned it
  unfoldable pub start : Signal → PyUtxoProcessor → PyUtxoProcessor × PyResult (Unit {0})
  start signal p =
      let (notification_task_started, started) = start_notification_task p in
      let (processor, done) = n.start_processor started.processor in
      let left = record started { processor = processor } in
      let (stopped, _) = stop_notification_task signal left in
      elim done [
        | ok _ ↦ (left, ok tt)
        | err e ↦ (if notification_task_started then stopped else left, err (exception e))
      ]

  -- the task is stopped whether or not the processor could be
  unfoldable pub stop : Signal → PyUtxoProcessor → PyUtxoProcessor × PyResult (Unit {0})
  stop signal p =
      let (processor, stop_result) = n.stop_processor p.processor in
      let left = record p { processor = processor } in
      let (stopped, notification_stop_result) = stop_notification_task signal left in
      elim stop_result [
        | err e ↦ (stopped, err (exception e))
        | ok _ ↦ (stopped, map_err exception notification_stop_result)
      ]

  unfoldable pub get_is_active : PyUtxoProcessor → Bool
  get_is_active p =
      unwrap_or false (n.try_rpc_ctl p.processor)
      && n.is_connected p.processor
      && n.is_running p.processor
