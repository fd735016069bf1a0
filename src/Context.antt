-- ===== src/Context.antt =====
-- `UtxoContext` of src/wallet/core/utxo/context.rs.
pub mod Backend
pub mod Methods
pub mod Mature
pub mod Pending
