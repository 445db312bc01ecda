-- ===== src/Gzip.antt =====
-- src/gzip.rs: the gzip container.
pub mod Header
pub mod Decoder
pub mod Encoder
pub mod Container
pub mod RoundTrip
