-- ===== src/Tx.antt =====
-- Transactions of the wallet without the generator: src/wallet/core/tx.
pub mod Create
pub mod Mass
pub mod Inputs
pub mod Generator
pub mod Settings
pub mod Sources
pub mod Iteration
pub mod Exhaustion
