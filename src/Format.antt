-- ===== src/Format.antt =====
-- `Format` of src/lib.rs.
use noflate.Base.{
  ℕ, ◌+◌, ◌*◌, ◌%◌, ◌&&◌, Option, none, some, List, [], ◌∷◌, leb, ◌==◌, if◌then◌else◌, ◌>>>◌,
  bit_and,
}

pub data Format : Type 0 where
  deflate zlib gzip : Format

-- The test on `data.len()` is the patterns.
unfoldable pub detect : List ℕ → Option Format
detect [] = none
detect (b ∷ []) = none
detect (cmf ∷ (flg ∷ rest)) =
    if (cmf == 0x1F) && (flg == 0x8B)
    then some gzip
    else if (bit_and cmf 0x0F == 8) && (leb (cmf >>> 4) 7 && ((cmf * 256 + flg) % 31 == 0))
    then some zlib
    else some deflate
