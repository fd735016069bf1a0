-- ===== src/Listeners.antt =====
-- The listener tables that `RpcClient` and `UtxoProcessor` share in form: src/callback.rs, and the
-- field `callbacks: Arc<Mutex<AHashMap<Event, Vec<PyCallback>>>>` of both.
pub mod Python
pub mod Callback
pub mod Table
pub mod Laws
