-- ===== src/Encode.antt =====
-- src/encode.rs: the streaming encoder.
pub mod Options
pub mod Blocks
pub mod Symbols
pub mod Fixed
pub mod Stored
pub mod Dynamic
pub mod Stream
