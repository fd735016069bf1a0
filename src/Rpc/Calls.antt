-- ===== src/Rpc/Calls.antt =====
-- The calls of the node that macros generate for `RpcClient`, with the requests that they make of dicts:
-- src/rpc/model.rs, src/rpc/messages.rs and the end of src/rpc/wrpc/client.rs.
use kaspa_python_sdk.Prelude.{
  String, Option, List, Result, ok, err, PyErr, PyResult, exception, map_err, map_ok, unwrap_or,
  ◌>>=◌,
}
use kaspa_python_sdk.Convert.Backend.{Backend}
use kaspa_python_sdk.Convert.ToDict.{Transaction}
use kaspa_python_sdk.Rpc.Requests.{Messages}
use kaspa_python_sdk.Rpc.Requests

-- the calls whose dict may be left out
pub data PlainCall : Type 0 where
  get_block_count get_block_dag_info get_coin_supply get_connected_peer_info : PlainCall
  get_info get_peer_addresses get_metrics get_connections get_sink : PlainCall
  get_sink_blue_score ping shutdown get_server_info get_sync_status get_fee_estimate : PlainCall
  get_current_network get_system_info : PlainCall

-- the calls that need a dict
pub data ArgsCall : Type 0 where
  add_peer ban estimate_network_hashes_per_second get_balance_by_address : ArgsCall
  get_balances_by_addresses get_block get_blocks get_block_template : ArgsCall
  get_current_block_color get_daa_score_timestamp_estimate : ArgsCall
  get_fee_estimate_experimental get_headers get_mempool_entries : ArgsCall
  get_mempool_entries_by_addresses get_mempool_entry get_subnetwork : ArgsCall
  get_utxos_by_addresses get_utxo_return_address get_virtual_chain_from_block : ArgsCall
  get_virtual_chain_from_block_v2 resolve_finality_conflict submit_block : ArgsCall
  submit_transaction submit_transaction_replacement unban : ArgsCall

-- What the calls use beside the conversions: a request that serde reads from a dict, and a response,
-- which serde makes an object of.
pub record Calls (b : Backend) : Type 1 where
  pub Raw : Type 0
  pub plain_from_pyobject : PlainCall → b.PyDict → PyResult Raw
  pub args_from_pyobject : ArgsCall → b.PyDict → PyResult Raw
  pub Response : Type 0
  pub to_pyobject : Response → PyResult b.PyAny

module _ (b : Backend) (m : Messages b) (c : Calls b) where
  open b use {PyAny, PyDict, Address, empty}

  -- what is sent to the node
  pub data Request : Type 0 where
    plain : PlainCall → c.Raw → Request
    args : ArgsCall → c.Raw → Request
    balance_by_address : Address → Request
    balances_by_addresses utxos_by_addresses : List Address → Request
    mempool_entries_by_addresses : Requests.GetMempoolEntriesByAddressesRequest b m → Request
    block : Requests.SubmitBlockRequest b m → Request
    transaction : Requests.SubmitTransactionRequest b m → Request
    replacement : Transaction b → Request

  -- `try_into` of the dict
  unfoldable pub plain_try_from : PlainCall → PyDict → PyResult Request
  plain_try_from call dict = map_ok (plain call) (c.plain_from_pyobject call dict)

  unfoldable pub args_try_from : ArgsCall → PyDict → PyResult Request
  args_try_from get_balance_by_address dict =
      map_ok balance_by_address (Requests.get_balance_by_address b m dict)
  args_try_from get_balances_by_addresses dict =
      map_ok balances_by_addresses (Requests.get_balances_by_addresses b m dict)
  args_try_from get_mempool_entries_by_addresses dict =
      map_ok mempool_entries_by_addresses (Requests.get_mempool_entries_by_addresses b m dict)
  args_try_from get_utxos_by_addresses dict =
      map_ok utxos_by_addresses (Requests.get_utxos_by_addresses b m dict)
  args_try_from submit_block dict = map_ok block (Requests.submit_block b m dict)
  args_try_from submit_transaction dict = map_ok transaction (Requests.submit_transaction b m dict)
  args_try_from submit_transaction_replacement dict =
      Requests.submit_transaction_replacement b m replacement dict
  args_try_from call dict = map_ok (args call) (c.args_from_pyobject call dict)

  -- A call raises, or it sends a request, whose awaited result is this.
  pub data Outcome : Type 0 where
    raises : PyErr → Outcome
    sends : Request → PyResult PyAny → Outcome

  unfoldable pub respond : (Request → Result String c.Response) → PyResult Request → Outcome
  respond node (err e) = raises e
  respond node (ok request) =
      sends request (map_err exception (node request) >>= λ response. c.to_pyobject response)

  unfoldable pub interface :
      (Request → Result String c.Response) → PlainCall → Option PyDict → Outcome
  interface node call request = respond node (plain_try_from call (unwrap_or empty request))

  unfoldable pub interface_with_args :
      (Request → Result String c.Response) → ArgsCall → PyDict → Outcome
  interface_with_args node call request = respond node (args_try_from call request)
