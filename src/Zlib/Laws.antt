-- ===== src/Zlib/Laws.antt =====
-- The header test of src/zlib.rs against `Format::detect` of src/lib.rs.
use noflate.Base.{
  ℕ, ◌+◌, ◌*◌, ◌^◌, ◌≡◌, ◌↔◌, ◌∙◌, List, [], ◌∷◌, arith, some, IsByte, bit_and, bit_or,
}
use noflate.Base.Bits.{or_comm, or_shifted, and_mask}
use noflate.Error.{ok}
use noflate.Format.{detect, zlib}
use noflate.Zlib.Header.{validate_zlib_header}

header_word : (c f : ℕ) → IsByte f → bit_or (c * 2 ^ 8) f ≡ c * 256 + f
header_word c f h = or_comm (c * 2 ^ 8) f ∙ or_shifted 8 f c h ∙ omega arith

-- A header of two bytes is accepted exactly when `detect` takes it for zlib, whatever follows, and
-- it asks for no preset dictionary.
pub validate_zlib_header-detect :
    (c f : ℕ) (rest : List ℕ)
    → IsByte c
    → IsByte f
    → (validate_zlib_header (c ∷ (f ∷ [])) ≡ ok tt)
      ↔ ((detect (c ∷ (f ∷ rest)) ≡ some zlib) × (bit_and f 0x20 ≡ 0))
unfolding validate_zlib_header detect
validate_zlib_header-detect c f rest h g = rw (header_word c f g) (ground (arith, and_mask 4 c))
