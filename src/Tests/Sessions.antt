-- ===== src/Tests/Sessions.antt =====
-- Start and stop of a processor that counts its calls and cannot be stopped.
use kaspa_python_sdk.Prelude.{ℕ, ◌+◌, ◌≡◌, refl, true, false, ◌||◌, none, ok, err, is_ok}
use kaspa_python_sdk.Processor.Methods.{Native, PyUtxoProcessor, Signal, start, stop}
use kaspa_python_sdk.Processor.Sessions.{start-stop-flag}

abbrev native : Native
native = record {
  UtxoProcessor = ℕ;
  RpcClient = Unit {0};
  NetworkId = ℕ;
  new = λ _ _. 0;
  network_id = λ _. none;
  set_network_id = λ _ calls. calls;
  start_processor = λ calls. (calls + 1, ok tt);
  stop_processor = λ calls. (calls + 1, err "busy");
  try_rpc_ctl = λ _. none;
  is_connected = λ _. true;
  is_running = λ _. true;
}

abbrev signal : Signal native
signal p = (p, ok tt)

abbrev fresh : PyUtxoProcessor native
fresh = record { processor = 0; rpc = tt; notification_task = false }

start-stop-flag_example :
    ((start native signal fresh).0.notification_task ≡ false || is_ok (start native signal fresh).1)
    × ((stop native signal fresh).0.notification_task ≡ false)
    × ((start native signal (stop native signal fresh).0).0.notification_task
        ≡ is_ok (start native signal (stop native signal fresh).0).1)
start-stop-flag_example = start-stop-flag native signal (λ p. refl) fresh
