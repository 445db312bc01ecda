-- ===== src/Gzip/Container.antt =====
-- The layout of a gzip stream, for src/gzip.rs: the header that its encoder writes, the DEFLATE
-- stream, and the checksum and the length of the content.
use noflate.Base.{◌++◌, List, ℕ, length, le_bytes_32, u32}
use noflate.Crc32
pub use noflate.Gzip.Encoder.{header_bytes}

abbrev pub trailer : List ℕ → List ℕ
trailer bytes =
    le_bytes_32 (Crc32.value (Crc32.update bytes Crc32.new)) ++ le_bytes_32 (u32 (length bytes))

abbrev pub container : List ℕ → List ℕ → List ℕ
container bytes encoded = header_bytes ++ (encoded ++ trailer bytes)
