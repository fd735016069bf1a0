-- ===== src/Tests.antt =====
-- The theorems at concrete inputs, over concrete backends that meet their hypotheses.
mod Keys
mod Listeners
mod Tasks
mod Context
mod Convert
mod Tx
mod Generator
mod Processor
mod Script
mod Signing
mod Client
mod Requests
mod Connection
mod Iteration
mod Pairs
mod Sessions
mod Extended
mod Editing
mod Calls
mod Reentrant
mod Stub
