-- ===== src/Zlib/Container.antt =====
-- The layout of a zlib stream, for src/zlib.rs: the header that its encoder writes, the DEFLATE
-- stream, and the checksum of the content.
use noflate.Base.{[], ◌∷◌, ◌++◌, List, ℕ, be_bytes_32}
use noflate.Adler32
use noflate.Zlib.Header.{cmf, flg}

abbrev pub header : List ℕ
header = cmf ∷ flg ∷ []

abbrev pub trailer : List ℕ → List ℕ
trailer bytes = be_bytes_32 (Adler32.value (Adler32.update bytes Adler32.new))

abbrev pub container : List ℕ → List ℕ → List ℕ
container bytes encoded = header ++ (encoded ++ trailer bytes)
