-- ===== src/Client.antt =====
-- Transactions, their parts and lists of entries as Python objects: src/consensus/client.
pub mod Equality
pub mod Transaction
pub mod Editing
pub mod Input
pub mod Output
pub mod Entry
pub mod EntryLists
pub mod UtxoEntries
pub mod Addresses
pub mod Holders
