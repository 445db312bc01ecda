-- ===== src/Decode/Copy.antt =====
-- `copy_from_distance` of src/decode.rs.
pub mod Repeats
pub mod Bytewise
use noflate.Base.{
  ℕ, zero, suc, ◌+◌, ◌-◌, min, ◌||◌, List, [], ◌∷◌, ◌++◌, length, slice, leb, ltb, ◌==◌,
  if◌then◌else◌,
}
use noflate.Error.{Result, ok, err, invalid_data, too_long_backward_reference}

-- `extend_from_within(start..start + n)`
unfoldable pub extend_from_within : List ℕ → ℕ → ℕ → List ℕ
extend_from_within output start n = output ++ slice output start (start + n)

-- The doubling loop. A round emits a byte at least, so `len` rounds are enough.
unfoldable pub copy_loop : ℕ → ℕ → ℕ → ℕ → List ℕ → List ℕ
unfolding extend_from_within
copy_loop zero distance len emitted output = output
copy_loop (suc fuel) distance len emitted output =
    let tail_len = distance + emitted in
    let taken = min tail_len (len - emitted) in
    let more =
      copy_loop fuel distance len (emitted + taken)
        (extend_from_within output (length output - tail_len) taken) in
    if ltb emitted len then more else output

unfoldable pub copy_from_distance : ℕ → ℕ → List ℕ → Result (List ℕ)
unfolding copy_loop extend_from_within
copy_from_distance distance len output =
    if (distance == 0) || ltb (length output) distance
    then err (invalid_data (too_long_backward_reference (length output) distance))
    else ok (
        if leb len distance
        then extend_from_within output (length output - distance) len
        else copy_loop len distance len 0 output)
