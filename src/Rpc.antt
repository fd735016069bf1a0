-- ===== src/Rpc.antt =====
-- `RpcClient` of src/rpc/wrpc/client.rs.
pub mod Events
pub mod Listeners
pub mod Removal
pub mod Node
pub mod Subscriptions
pub mod Task
pub mod Delivery
pub mod Sessions
pub mod Requests
pub mod Addresses
pub mod Orphans
pub mod Views
pub mod Connection
pub mod Tasks
pub mod History
pub mod Calls
pub mod Sent
pub mod Reentrant
