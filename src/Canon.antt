-- ===== src/Canon.antt =====
-- The validator of canonical JSON: `crates/ppg3-core/src/canon.rs`.
pub mod Utf8
pub mod Text
pub mod Value
pub mod Progress
pub mod Terminates
pub mod Canonicalize
pub mod Escapes
pub mod Grammar
pub mod Reads
pub mod Sound
pub mod Accepts
pub mod Heads
pub mod Complete
pub mod Samples
