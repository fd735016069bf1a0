-- ===== src/Processor.antt =====
-- `UtxoProcessor` of src/wallet/core/utxo/processor.rs.
pub mod Events
pub mod Listeners
pub mod Targets
pub mod Task
pub mod Due
pub mod Draining
pub mod Payload
pub mod Lifecycle
pub mod Methods
pub mod Sessions
