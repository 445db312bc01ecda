-- ===== src/Decode.antt =====
-- src/decode.rs: the streaming decoder.
pub mod Copy
pub mod State
pub mod Header
pub mod Body
pub mod Fixed
pub mod Stream
