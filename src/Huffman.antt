-- ===== src/Huffman.antt =====
-- src/huffman.rs: canonical Huffman codes.
pub mod Codes
pub mod Reversal
pub mod Digits
pub mod Encoder
pub mod Decoder
pub mod Lengths
pub mod Sorted
pub mod Built
pub mod Prefix
pub mod Looks
pub mod RoundTrip
