-- ===== src/Bit/Reader.antt =====
-- `BitReader` of src/bit.rs.
use noflate.Base.{
  ℕ, zero, suc, ◌+◌, ◌-◌, ◌*◌, ◌/◌, ◌%◌, ◌^◌, Bool, not, none, some, List, get_elem?, length, slice,
  ltb, leb, ◌==◌, if◌then◌else◌, u8, u16, u64, ◌<<<◌, ◌>>>◌, bit_and, bit_or,
}
use noflate.Error.{Error, ok, err, panic, out_of_fuel, invalid_data, unexpected_end}
use noflate.Exec.{Exec, ◌>>=◌, ◌>>◌, pure, modify, gets}

pub record ReaderState : Type 0 where
  pub byte_index : ℕ
  pub bit_buffer : ℕ
  pub bit_count : ℕ

pub record Reader : Type 0 where
  pub input : List ℕ
  pub byte_index : ℕ
  pub bit_buffer : ℕ
  pub bit_count : ℕ

unfoldable pub new_seeded : List ℕ → ℕ → ℕ → Reader
new_seeded input bit_buffer bit_count = record {
  input = input;
  byte_index = 0;
  bit_buffer = bit_buffer;
  bit_count = bit_count;
}

unfoldable pub available_bits : Reader → ℕ
available_bits r = r.bit_count + (length r.input - r.byte_index) * 8

unfoldable pub residual_bit_buffer : Reader → ℕ
residual_bit_buffer r = r.bit_buffer

unfoldable pub residual_bit_count : Reader → ℕ
residual_bit_count r = r.bit_count

abbrev pub eof : Error
eof = invalid_data unexpected_end

-- A byte of the input put above the buffered bits.
unfoldable pub load : ℕ → Reader → Reader
load next r = record r {
  byte_index = r.byte_index + 1;
  bit_buffer = bit_or r.bit_buffer (u64 (next <<< r.bit_count));
  bit_count = u8 (r.bit_count + 8);
}

-- The `while` of `peek_bits`. A round adds 8 buffered bits, so `bit_count` rounds are enough.
unfoldable pub fill : ℕ → ℕ → Exec Reader (Unit {0})
unfolding load
fill zero n r = (if ltb r.bit_count n then out_of_fuel else ok tt, r)
fill (suc fuel) n r =
    let rest = λ (next : ℕ). fill fuel n (load next r) in
    if ltb r.bit_count n
    then elim (get_elem? r.input r.byte_index) [ none ↦ (err eof, r) | some next ↦ rest next ]
    else (ok tt, r)

unfoldable pub peek_bits : ℕ → Exec Reader ℕ
unfolding fill
peek_bits n = do fill n n; gets (λ r. u16 (bit_and r.bit_buffer (2 ^ n - 1)))

-- `bit_buffer >>= n; bit_count -= n`
unfoldable pub shift_out : ℕ → Reader → Reader
shift_out n r = record r { bit_buffer = r.bit_buffer >>> n; bit_count = r.bit_count - n }

unfoldable pub skip_bits : ℕ → Exec Reader (Unit {0})
unfolding peek_bits shift_out
skip_bits n = do
  enough ← gets (λ r. not (ltb r.bit_count n))
  _ ← if enough then pure 0 else peek_bits n
  modify (shift_out n)

unfoldable pub read_bits : ℕ → Exec Reader ℕ
unfolding peek_bits skip_bits
read_bits n = do b ← peek_bits n; skip_bits n; pure b

unfoldable pub read_bit : Exec Reader Bool
unfolding read_bits
read_bit = do b ← read_bits 1; pure (not (b == 0))

unfoldable pub align_to_byte : Reader → Reader
unfolding shift_out
align_to_byte r = shift_out (r.bit_count % 8) r

-- `byte_index - buffered_bytes` is on `usize`: below 0 it panics.
unfoldable pub read_bytes : ℕ → Exec Reader (List ℕ)
read_bytes len r =
    let buffered_bytes = r.bit_count / 8 in
    let start = r.byte_index - buffered_bytes in
    let stop = start + len in
    let emptied = record r { bit_buffer = 0; bit_count = 0 } in
    if ltb r.byte_index buffered_bytes
    then (panic, r)
    else if leb stop (length r.input)
    then (ok (slice r.input start stop), record emptied { byte_index = stop })
    else (err eof, emptied)

unfoldable pub snapshot : Reader → ReaderState
snapshot r = record {
  byte_index = r.byte_index;
  bit_buffer = r.bit_buffer;
  bit_count = r.bit_count;
}

unfoldable pub restore : ReaderState → Reader → Reader
restore s r = record r {
  byte_index = s.byte_index;
  bit_buffer = s.bit_buffer;
  bit_count = s.bit_count;
}

unfoldable pub committed_bytes : Reader → ℕ
committed_bytes r = r.byte_index
