-- ===== src/Zlib.antt =====
-- src/zlib.rs: the zlib container.
pub mod Header
pub mod Container
pub mod Decoder
pub mod Encoder
pub mod Laws
pub mod RoundTrip
