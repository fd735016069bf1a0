-- ===== src/Rpc/Subscriptions.antt =====
-- The subscription methods of `RpcClient` (src/rpc/wrpc/client.rs). The asynchronous part runs to
-- its end; each method returns the new state.
use kaspa_python_sdk.Prelude.{Bool, none, some, List, err, ok, exception, PyResult, map_err, ◌>>=◌}
use kaspa_python_sdk.Listeners.Python.{Python}
use kaspa_python_sdk.Rpc.Events.{EventTypes}
use kaspa_python_sdk.Rpc.Node.{Node, Scope}
use kaspa_python_sdk.Rpc.Task.{Inner}

module _ (py : Python) (t : EventTypes) (n : Node py t) where
  open n use {Address}

  -- The body that the methods of the macro `build_wrpc_python_subscriptions` share with the others.
  unfoldable pub subscribe : Scope Address → Inner py t n → PyResult (Inner py t n)
  subscribe scope inner = elim inner.listener_id [
    | some listener_id ↦ (do
      client ← map_err exception (n.start_notify inner.client listener_id scope)
      ok (record inner { client = client }))
    | none ↦ err (exception "RPC subscribe on a closed connection")
  ]

  unfoldable pub unsubscribe : Scope Address → Inner py t n → PyResult (Inner py t n)
  unsubscribe scope inner = elim inner.listener_id [
    | some listener_id ↦ (do
      client ← map_err exception (n.stop_notify inner.client listener_id scope)
      ok (record inner { client = client }))
    | none ↦ err (exception "RPC unsubscribe on a closed connection")
  ]

  unfoldable pub subscribe_utxos_changed : List Address → Inner py t n → PyResult (Inner py t n)
  subscribe_utxos_changed addresses = subscribe (Scope.utxos_changed addresses)

  unfoldable pub unsubscribe_utxos_changed : List Address → Inner py t n → PyResult (Inner py t n)
  unsubscribe_utxos_changed addresses = unsubscribe (Scope.utxos_changed addresses)

  unfoldable pub subscribe_virtual_chain_changed : Bool → Inner py t n → PyResult (Inner py t n)
  subscribe_virtual_chain_changed include_accepted_transaction_ids =
      subscribe (Scope.virtual_chain_changed include_accepted_transaction_ids)

  unfoldable pub unsubscribe_virtual_chain_changed : Bool → Inner py t n → PyResult (Inner py t n)
  unsubscribe_virtual_chain_changed include_accepted_transaction_ids =
      unsubscribe (Scope.virtual_chain_changed include_accepted_transaction_ids)
