-- ===== src/Crc32.antt =====
-- src/crc32.rs: the streaming CRC-32 checksum with its slice-by-16 tables.
pub mod Bitwise
pub mod Slices
pub mod Streaming
use noflate.Base.{
  ℕ, zero, suc, ◌+◌, ◌-◌, ◌*◌, ◌^◌, List, [], ◌∷◌, map, length, drop, get_or, leb, ◌==◌,
  if◌then◌else◌, ◌>>>◌, bit_and, bit_xor,
}

abbrev pub polynomial : ℕ
polynomial = 0xEDB88320

-- A round of the loop over `j` in `make_table`.
pub shift_bit : ℕ → ℕ
shift_bit c = if bit_and c 1 == 0 then c >>> 1 else bit_xor (c >>> 1) polynomial

pub shift_bits : ℕ → ℕ → ℕ
shift_bits zero c = c
shift_bits (suc n) c = shift_bits n (shift_bit c)

-- `f i` for the `n` numbers from `i` on.
abbrev pub tabulate : (ℕ → ℕ) → ℕ → ℕ → List ℕ
tabulate f i zero = []
tabulate f i (suc n) = f i ∷ tabulate f (i + 1) n

-- `table[0]`
pub first_table : List ℕ
unfolding shift_bits shift_bit
first_table = tabulate (shift_bits 8) 0 256

abbrev pub low_byte : ℕ → ℕ
low_byte c = bit_and c 0xFF

-- `table[k]` from `table[k - 1]`
pub next_table : List ℕ → List ℕ
unfolding first_table
next_table previous =
    map (λ prev. bit_xor (prev >>> 8) (get_or first_table (low_byte prev) 0)) previous

-- `TABLE[k]`
pub table : ℕ → List ℕ
unfolding first_table next_table
table zero = first_table
table (suc k) = next_table (table k)

pub record Crc32 : Type 0 where
  pub state : ℕ

unfoldable pub new : Crc32
new = record { state = 0xFFFF_FFFF }

-- `TABLE[k][i]`
pub entry : ℕ → ℕ → ℕ
unfolding table
entry k i = get_or (table k) i 0

-- `u32::from_le_bytes` of the 4 bytes from `i` on.
pub le_word : List ℕ → ℕ → ℕ
le_word xs i =
    get_or xs i 0
    + get_or xs (i + 1) 0 * 256
    + get_or xs (i + 2) 0 * 65536
    + get_or xs (i + 3) 0 * 16777216

-- The four lookups of a word whose lowest byte goes to `TABLE[k]`.
pub word_entries : ℕ → ℕ → ℕ
unfolding entry
word_entries k w =
    bit_xor
      (bit_xor (bit_xor (entry k (low_byte w)) (entry (k - 1) (low_byte (w >>> 8))))
        (entry (k - 2) (low_byte (w >>> 16))))
      (entry (k - 3) (w >>> 24))

-- A round of the loop over 16 bytes.
pub slice_step : List ℕ → ℕ → ℕ
unfolding word_entries le_word
slice_step xs crc =
    bit_xor
      (bit_xor
        (bit_xor (word_entries 15 (bit_xor (le_word xs 0) crc)) (word_entries 11 (le_word xs 4)))
        (word_entries 7 (le_word xs 8)))
      (word_entries 3 (le_word xs 12))

-- A round of the loop over single bytes.
pub byte_step : ℕ → ℕ → ℕ
unfolding entry
byte_step crc x = bit_xor (crc >>> 8) (entry 0 (low_byte (bit_xor crc x)))

pub byte_steps : List ℕ → ℕ → ℕ
unfolding byte_step
byte_steps [] crc = crc
byte_steps (x ∷ xs) crc = byte_steps xs (byte_step crc x)

-- Both loops; `xs` is `data` from `i` on, and a round of the first takes 16 bytes.
pub slices : ℕ → List ℕ → ℕ → ℕ
unfolding slice_step byte_steps
slices zero xs crc = byte_steps xs crc
slices (suc fuel) xs crc =
    let more = slices fuel (drop 16 xs) (slice_step xs crc) in
    if leb 16 (length xs) then more else byte_steps xs crc

pub update : List ℕ → Crc32 → Crc32
unfolding slices
update bytes s = record { state = slices (length bytes) bytes s.state }

-- `!self.state`
unfoldable pub value : Crc32 → ℕ
value s = 2 ^ 32 - 1 - s.state

-- The one-shot function.
unfoldable pub crc32 : List ℕ → ℕ
unfolding new update value
crc32 bytes = value (update bytes new)
