-- ===== src/Bit.antt =====
-- src/bit.rs: the LSB-first bit reader and writer.
pub mod View
pub mod Reader
pub mod Writer
pub mod Reads
pub mod Refine
pub mod Kept
pub mod Writes
pub mod Fields
