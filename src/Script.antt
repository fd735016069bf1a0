-- ===== src/Script.antt =====
-- Scripts: src/crypto/txscript.
pub mod Opcodes
pub mod Utf8
pub mod Builder
pub mod Methods
pub mod Handles
pub mod Poison
pub mod Hex
pub mod Comparison
