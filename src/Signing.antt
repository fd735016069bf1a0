-- ===== src/Signing.antt =====
-- Signatures: src/wallet/core/tx/signer.rs, src/wallet/core/message.rs and the signing methods of
-- src/wallet/core/tx/generator/pending.rs.
pub mod Backend
pub mod Signer
pub mod Pending
pub mod Outcomes
pub mod Secrets
