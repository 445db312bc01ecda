-- ===== src/Bit/Writer.antt =====
-- `BitWriter` of src/bit.rs. The writer holds the bytes of the `Vec` that it borrows.
use noflate.Base.{
  ℕ, zero, suc, ◌+◌, ◌-◌, Bool, List, [], ◌∷◌, ◌++◌, ltb, leb, if◌then◌else◌, u8, u64, ◌<<<◌, ◌>>>◌,
  bit_or,
}

pub record Writer : Type 0 where
  pub output : List ℕ
  pub bit_buffer : ℕ
  pub bit_count : ℕ

unfoldable pub new_seeded : List ℕ → ℕ → ℕ → Writer
new_seeded output bit_buffer bit_count = record {
  output = output;
  bit_buffer = bit_buffer;
  bit_count = bit_count;
}

-- The low byte of the buffer goes out.
unfoldable pub push_byte : Writer → Writer
push_byte w = record {
  output = w.output ++ u8 w.bit_buffer ∷ [];
  bit_buffer = w.bit_buffer >>> 8;
  bit_count = w.bit_count - 8;
}

-- The `while` of `write_bits`. A round takes 8 from `bit_count`, so `bit_count` rounds are enough.
unfoldable pub flush : ℕ → Writer → Writer
unfolding push_byte
flush zero w = w
flush (suc fuel) w = let rest = flush fuel (push_byte w) in if leb 8 w.bit_count then rest else w

unfoldable pub write_bits : ℕ → ℕ → Writer → Writer
unfolding flush
write_bits n b w =
    let c = u8 (w.bit_count + n) in
    flush c (record w { bit_buffer = bit_or w.bit_buffer (u64 (b <<< w.bit_count)); bit_count = c })

unfoldable pub write_bit : Bool → Writer → Writer
unfolding write_bits
write_bit b = write_bits 1 (if b then 1 else 0)

unfoldable pub align_to_byte : Writer → Writer
align_to_byte w =
    if ltb 0 w.bit_count
    then record { output = w.output ++ u8 w.bit_buffer ∷ []; bit_buffer = 0; bit_count = 0 }
    else w

unfoldable pub bit_state : Writer → ℕ × ℕ
bit_state w = (w.bit_buffer, w.bit_count)

unfoldable pub finish : Writer → Writer
unfolding align_to_byte
finish w = align_to_byte w
