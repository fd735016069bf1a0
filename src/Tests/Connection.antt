-- ===== src/Tests/Connection.antt =====
-- Connecting and disconnecting a client that counts the calls, and that fails every third.
use kaspa_python_sdk.Prelude.{
  ℕ, ◌+◌, ◌%◌, ◌≤◌, ◌≡◌, refl, String, true, false, ◌⊎◌, none, some, List, [], ◌∷◌, Result, ok, err,
  nat_beq, if◌then◌else◌,
}
use kaspa_python_sdk.Rpc.Task.{Inner}
use kaspa_python_sdk.Rpc.Connection.{Connector}
use kaspa_python_sdk.Rpc.Events.{Ctl}
use kaspa_python_sdk.Rpc.Tasks.{connects, starts}
use kaspa_python_sdk.Rpc.History.{
  Happening, awaits, receives, ctl_event, node_event, World, history, history-one_task,
}
use kaspa_python_sdk.Tests.Listeners.{types}
use kaspa_python_sdk.Tests.Tasks.{node, raising, loud}

abbrev counted : ℕ → ℕ × Result String (Unit {0})
counted calls = (calls + 1, if nat_beq (calls % 3) 2 then err "lost" else ok tt)

abbrev connector : Connector ℕ
connector = record {
  ConnectStrategy = ℕ;
  strategy_from_str = λ _. err "strategy";
  retry = 0;
  display = λ _. "";
  Resolver = ℕ;
  NetworkId = ℕ;
  NetworkType = ℕ;
  network_from_str = λ _. ok 0;
  parse_url = λ url _ _. ok url;
  new_client = λ _ _ _ _. ok 0;
  connect_client = λ calls _ _ _ _ _. counted calls;
  disconnect_client = counted;
  start_client = counted;
  stop_client = counted;
  default_borsh_rpc_port = λ _. 17110;
  default_json_rpc_port = λ _. 18110;
}

abbrev idle : Inner raising types (node raising 0)
idle = record loud { notification_task = false }

-- the messages of the task that raises come after a start and before a stop
abbrev session : List (Happening raising types (node raising 0) connector (λ inner. ok inner))
session =
    awaits starts
    ∷ receives (ctl_event Ctl.connect ∷ node_event 4 ∷ [])
    ∷ awaits (connects none (some "wrong") none none none)
    ∷ awaits starts
    ∷ []

abbrev ended : World raising types (node raising 0) connector (λ inner. ok inner)
ended =
    history raising types (node raising 0) connector (λ inner. ok inner) session
      (record { tasks = 0; panicked = false; inner = idle })

history-one_task_example :
    ((ended.tasks ≡ (if ended.inner.notification_task then 1 else 0))
      ⊎ ((ended.tasks ≡ 0) × (ended.inner.notification_task ≡ true) × (ended.panicked ≡ true)))
    × (ended.tasks ≤ 1)
history-one_task_example =
    history-one_task raising types (node raising 0) connector (λ inner. ok inner) session idle refl
