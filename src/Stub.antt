-- ===== src/Stub.antt =====
-- The post-processing of the generated Python stub file, src/bin/stub_gen.rs.
pub mod Text
pub mod Generator
pub mod Scan
pub mod Names
pub mod Signatures
pub mod Types
pub mod Lines
