-- ===== src/Convert.antt =====
-- Transactions and their parts as Python dicts, both ways: src/consensus/convert.rs, and the
-- `TryFrom<&Bound<PyDict>>` of src/consensus/client/*.rs.
pub mod Backend
pub mod Binary
pub mod ToDict
pub mod FromDict
pub mod Entries
pub mod Parts
pub mod Transactions
