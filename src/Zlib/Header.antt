-- ===== src/Zlib/Header.antt =====
-- The constants of src/zlib.rs and `validate_zlib_header`.
use noflate.Base.{
  ℕ, ◌%◌, not, List, get_or, ltb, ◌==◌, if◌then◌else◌, ◌<<<◌, ◌>>>◌, bit_and, bit_or,
}
use noflate.Error.{
  Result, ok, err, invalid_data, unsupported, zlib_method, zlib_window, zlib_preset_dictionary,
  zlib_fcheck,
}

abbrev pub cmf : ℕ
cmf = 0x78

abbrev pub flg : ℕ
flg = 0x9C

-- The header is two bytes.
unfoldable pub validate_zlib_header : List ℕ → Result (Unit {0})
validate_zlib_header header =
    let c = get_or header 0 0 in
    let f = get_or header 1 0 in
    if not (bit_and c 0x0F == 8)
    then err (unsupported (zlib_method (bit_and c 0x0F)))
    else if ltb 7 (c >>> 4)
    then err (unsupported (zlib_window (c >>> 4)))
    else if not (bit_and f 0x20 == 0)
    then err (unsupported zlib_preset_dictionary)
    else if not (bit_or (c <<< 8) f % 31 == 0)
    then err (invalid_data zlib_fcheck)
    else ok tt
