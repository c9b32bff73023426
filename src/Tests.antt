-- ===== src/Tests.antt =====
-- Runs of the model at concrete inputs, and the theorems applied to concrete inputs.
pub mod Text
pub mod Checksums
pub mod Encoding
pub mod Decoding
pub mod Memory
pub mod Files
pub mod Osal
pub mod Packets
