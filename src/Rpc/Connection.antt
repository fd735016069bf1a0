-- ===== src/Rpc/Connection.antt =====
-- The constructor of `RpcClient` and the calls that connect and disconnect it
-- (src/rpc/wrpc/client.rs). A call is awaited: what it returns is the state when it is over.
use kaspa_python_sdk.Prelude.{
  ℕ, String, Bool, true, false, Option, none, some, [], Result, ok, err, PyErr, PyResult, exception,
  map_err, ◌>>=◌, unwrap_or,
}
use kaspa_python_sdk.Listeners.Python.{Python}
use kaspa_python_sdk.Rpc.Events.{EventTypes}
use kaspa_python_sdk.Rpc.Node.{Node}
use kaspa_python_sdk.Rpc.Task.{Inner, start_notification_task, stop_notification_task}

pub data PyEncoding : Type 0 where
  borsh serde_json : PyEncoding

-- What these calls use of `KaspaRpcClient` and of the network ids.
pub record Connector (Client : Type 0) : Type 1 where
  pub ConnectStrategy : Type 0
  pub strategy_from_str : String → Result String ConnectStrategy
  pub retry : ConnectStrategy
  -- the text of an exception, by which another is raised
  pub display : PyErr → String
  pub Resolver : Type 0
  pub NetworkId : Type 0
  pub NetworkType : Type 0
  pub network_from_str : String → PyResult NetworkId
  pub parse_url : String → PyEncoding → NetworkId → Result String String
  pub new_client :
      PyEncoding → Option String → Option Resolver → Option NetworkId → Result String Client
  pub connect_client :
      Client
      → Bool
      → ConnectStrategy
      → Option String
      → Option ℕ
      → Option ℕ
      → Client × Result String (Unit {0})
  pub disconnect_client : Client → Client × Result String (Unit {0})
  pub start_client : Client → Client × Result String (Unit {0})
  pub stop_client : Client → Client × Result String (Unit {0})
  pub default_borsh_rpc_port : NetworkType → ℕ
  pub default_json_rpc_port : NetworkType → ℕ

module _ (py : Python) (t : EventTypes) (n : Node py t) (c : Connector n.Client) where
  open n use {Client}
  open c use {Resolver, NetworkId, ConnectStrategy}

  unfoldable pub parsed_url :
      Option String → PyEncoding → Option NetworkId → PyResult (Option String)
  parsed_url none encoding network_id = ok none
  parsed_url (some url) encoding none = ok (some url)
  parsed_url (some url) encoding (some network_id) = do
    url_ ← map_err exception (c.parse_url url encoding network_id)
    ok (some url_)

  unfoldable pub new :
      Option Resolver
      → Option String
      → Option PyEncoding
      → Option NetworkId
      → PyResult (Inner py t n)
  new resolver url encoding network_id = do
    let encoding_ = unwrap_or PyEncoding.borsh encoding
    url_ ← parsed_url url encoding_ network_id
    client ← map_err exception (c.new_client encoding_ url_ resolver network_id)
    ok (record { client = client; notification_task = false; callbacks = []; listener_id = none })

  unfoldable pub network_id_of : Option NetworkId → PyResult NetworkId
  network_id_of (some id) = ok id
  network_id_of none = c.network_from_str "mainnet"

  unfoldable pub ctor :
      Option Resolver
      → Option String
      → Option PyEncoding
      → Option NetworkId
      → PyResult (Inner py t n)
  ctor resolver url encoding network_id = do
    id ← network_id_of network_id
    new resolver url (some (unwrap_or PyEncoding.borsh encoding)) (some id)

  unfoldable pub default_port : PyEncoding → c.NetworkType → ℕ
  default_port PyEncoding.borsh network_type = c.default_borsh_rpc_port network_type
  default_port PyEncoding.serde_json network_type = c.default_json_rpc_port network_type

  unfoldable pub strategy_of : Option String → PyResult ConnectStrategy
  strategy_of none = ok c.retry
  strategy_of (some strategy) =
      map_err (λ e. exception (c.display e)) (map_err exception (c.strategy_from_str strategy))

  -- whether a task was spawned, the state, and the result
  pub record Called : Type 0 where
    pub spawned : Bool
    pub inner : Inner py t n
    pub result : PyResult (Unit {0})

  -- a call of the client on what the start of the task left
  unfoldable pub start_then : (Client → Client × Result String (Unit {0})) → Inner py t n → Called
  start_then f inner =
      let (spawned, started) = start_notification_task py t n inner in
      let (client, done) = f started.client in
      record {
        spawned = spawned;
        inner = record started { client = client };
        result = map_err exception done;
      }

  -- a call of the client, and where it succeeds the stop of the task
  unfoldable pub then_stop :
      (Client → Client × Result String (Unit {0}))
      → (Inner py t n → Result String (Inner py t n))
      → Inner py t n
      → Called
  then_stop f signal inner =
      let (client, done) = f inner.client in
      let left = record inner { client = client } in
      elim done [
        | err e ↦ record { spawned = false; inner = left; result = err (exception e) }
        | ok _ ↦ elim (stop_notification_task py t n signal left) [
          | err e ↦ record { spawned = false; inner = left; result = err (exception e) }
          | ok stopped ↦ record { spawned = false; inner = stopped; result = ok tt }
        ]
      ]

  -- `timeout_duration` and `retry_interval` are in milliseconds
  unfoldable pub connect :
      Option Bool → Option String → Option String → Option ℕ → Option ℕ → Inner py t n → Called
  connect block_async_connect strategy url timeout_duration retry_interval inner =
      elim (strategy_of strategy) [
        | err e ↦ record { spawned = false; inner = inner; result = err e }
        | ok parsed ↦
            start_then
              (λ client.
                c.connect_client client (unwrap_or true block_async_connect) parsed url
                  timeout_duration retry_interval)
              inner
      ]

  unfoldable pub disconnect : (Inner py t n → Result String (Inner py t n)) → Inner py t n → Called
  disconnect signal inner = then_stop c.disconnect_client signal inner

  unfoldable pub start : Inner py t n → Called
  start inner = start_then c.start_client inner

  unfoldable pub stop : (Inner py t n → Result String (Inner py t n)) → Inner py t n → Called
  stop signal inner = then_stop c.stop_client signal inner
