-- ===== src/Keys.antt =====
-- Keys: src/wallet/keys, its generators (pubkeygen.rs, privkeygen.rs), single keys, extended keys
-- and public keys, and the mnemonics of src/wallet/bip32.
pub mod Backend
pub mod TryMap
pub mod PublicKeyGenerator
pub mod PrivateKeyGenerator
pub mod Pairs
pub mod Agreement
pub mod Extended
pub mod Public
pub mod Mnemonic
