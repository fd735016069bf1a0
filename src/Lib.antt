-- ===== src/Lib.antt =====
-- Python bindings of the Kaspa SDK: a model of the logic that the bindings add to the Rust crates
-- below them, with its correctness theorems.
--
-- The program is a layer of pyo3 classes. Each class wraps a type of a Kaspa crate, converts the
-- arguments that Python hands in, calls the crate, and converts results and errors back. What the
-- crates and pyo3 do is no part of this repository: it enters as a record of operations (a
-- `Backend`, `Python`, `EventTypes`, `EventKinds`, `Node`, `Calculator`, `Wallet`, `Native`, `Crypto`,
-- `Messages`, `Calls`, `Connector`, `Generating`, `Curve`, `Bip32`, `Networks`, ...) that the
-- definitions take, and the laws that a theorem relies on are its named hypotheses (`IsLawful`,
-- `DerivesInOrder`, `IsCounted`, `IsBip32`, ...).
--
-- Files and the code they model:
--   Prelude: Boolean tests, lists, `Result` and the Python exceptions (`PyErr`).
--   Convert: transactions and their parts as Python dicts. ToDict is `TryToPyDict` of
--     src/consensus/convert.rs; FromDict is the `TryFrom<&Bound<PyDict>>` of
--     src/consensus/client/{utxo,input,output,transaction}.rs, a statement of the source to a line of
--     the `do` block; Binary is `PyBinary` of src/types.rs. Entries, Parts and Transactions hold the
--     proofs.
--   Keys: PublicKeyGenerator and PrivateKeyGenerator are src/wallet/keys/{pubkeygen,privkeygen}.rs, a
--     definition for each method; Pairs is the key pair and the addresses of single keys, of
--     src/wallet/keys/{keypair,privatekey,publickey}.rs. Extended holds, in XPrv, XPub and
--     DerivationPath, the classes of src/wallet/keys/{xprv,xpub,derivation}.rs. Public is the rest of
--     publickey.rs, and src/wallet/core/derivation.rs; Mnemonic is src/wallet/bip32/phrase.rs. Ranges,
--     Addresses, Agreement and Extended.Paths hold the proofs.
--   Listeners: Callback is src/callback.rs; Table is the map from events to callbacks that
--     `RpcClient` and `UtxoProcessor` both keep, as an association list; Laws holds its lemmas.
--   Rpc: src/rpc/wrpc/client.rs and src/rpc/messages.rs. Events and Listeners are the events and
--     listener methods of `RpcClient`; Node is what it calls of `KaspaRpcClient`; Task is the
--     notification task, a turn of its loop for each message, with its start and stop; Connection
--     is the constructor and the calls that connect and disconnect; Subscriptions are the methods
--     that need a registered listener; Requests are the hand-written conversions of dicts to
--     requests; Calls are the calls of the node that macros generate, with src/rpc/model.rs.
--     Removal, Views, Delivery, Sessions, Tasks, History, Addresses, Orphans and Sent hold the proofs;
--     Reentrant is an event whose listeners call the listener methods.
--   Processor: src/wallet/core/utxo/processor.rs. Events and Listeners are the events, targets and
--     listener methods of `UtxoProcessor`; Task is its notification task, with the dict that
--     listeners are called with; Lifecycle is the start and the stop as atomic steps beside any
--     number of tasks; Methods is the constructor, start and stop over the wallet processor.
--     Targets, Due, Draining, Payload and Sessions hold the proofs.
--   Script: src/crypto/txscript. Opcodes is the enumeration, Builder the class as a handle to a
--     builder under a lock, Methods its methods as one type, Utf8 what `String::from_utf8` takes
--     for a text, Comparison `__eq__` with its proofs. Handles, Poison, Hex and Opcodes.Bytes hold
--     the other proofs.
--   Signing: Signer is src/wallet/core/tx/signer.rs and src/wallet/core/message.rs, Pending the
--     signing methods of src/wallet/core/tx/generator/pending.rs, each with what it leaves in its
--     buffers of secret bytes. Outcomes and Secrets hold the proofs.
--   Client: the classes of src/consensus/client. Transaction, Input, Output and Entry are their
--     constructors, getters and setters, Equality is their `__eq__`, Editing runs calls on one
--     transaction; UtxoEntries and EntryLists are `PyUtxoEntries` of utxo.rs, Addresses is the method
--     of that name of transaction.rs, with Holders for what it gives.
--   Network: src/consensus/core/network.rs, with Extraction. Address: the class of src/address.rs.
--   Enums: the enumerations of src/consensus/core/hashing.rs, src/address.rs, src/rpc/encoding.rs and
--     src/wallet/bip32/language.rs that Python names by a text, with the proofs in Texts.
--   Context: `UtxoContext` of src/wallet/core/utxo/context.rs over its processor's pending map.
--   Tx: Create is `create_transaction` of src/wallet/core/tx/utils.rs, with the sum of the amounts
--     modulo 2 ^ 64; Mass is src/wallet/core/tx/mass.rs with its proofs;
--     Generator is the constructor of src/wallet/core/tx/generator/generator.rs with its arguments
--     and settings, Iteration its iteration with the functions that run it to its end; Inputs,
--     Settings, Exhaustion and Sources hold the proofs.
--   Stub: the post-processing of the Python stub file, src/bin/stub_gen.rs. Text is what it uses of
--     Rust's `str`, Generator its functions; Scan, Names, Signatures, Types and Lines hold the proofs.
--   Tests: concrete backends, and the theorems at concrete inputs.
--
-- A method that changes shared state returns the new state; a fallible one returns `PyResult`. An
-- unsigned integer is a natural number, and a range that matters is a hypothesis. A loop that walks
-- a collection is structural recursion. The loop of the task of `UtxoProcessor` takes fuel, one unit
-- for a turn: with more than the requests and the events that wait it never runs out. The iteration
-- of the transaction generator takes fuel, one unit for a transaction: with more than the generator
-- has left it never runs out.
--
-- Not modelled: the messages of foreign errors beyond their text, the locks around the tables of
-- listeners, a task that cannot be spawned, listeners that change the table of `UtxoProcessor`
-- while they run, the selection of entries by the native transaction generator, whether two
-- Python objects share one native object, the regular expression and the files of the stub
-- generator, and the classes of hashes, summaries, balances and the resolver, which only forward
-- to a crate.
pub mod Prelude
pub mod Keys
pub mod Listeners
pub mod Rpc
pub mod Processor
pub mod Context
pub mod Convert
pub mod Tx
pub mod Script
pub mod Stub
pub mod Signing
pub mod Client
pub mod Enums
pub mod Network
pub mod Address
mod Tests
