-- ===== src/Adler32.antt =====
-- src/adler32.rs: the streaming Adler-32 checksum.
pub mod Reference
use noflate.Base.{
  ℕ, zero, suc, ◌+◌, ◌-◌, ◌*◌, ◌/◌, ◌%◌, ◌^◌, List, [], ◌∷◌, ◌++◌, length, take, drop, ltb, leb,
  if◌then◌else◌, u32, ◌<<<◌, bit_or, min,
}

abbrev pub base : ℕ
base = 65521

abbrev pub nmax : ℕ
nmax = 5552

pub record Adler32 : Type 0 where
  pub a : ℕ
  pub b : ℕ

unfoldable pub new : Adler32
new = record { a = 1; b = 0 }

-- `a = a.wrapping_add(byte); b = b.wrapping_add(a)`
add_byte : Adler32 → ℕ → Adler32
add_byte s x = let a = u32 (s.a + x) in record { a = a; b = u32 (s.b + a) }

-- The `for j in 0..16` of a round, on the bytes from `i` on, with `n` of its 16 left.
add_block : ℕ → List ℕ → Adler32 → Adler32
add_block zero xs s = s
add_block (suc n) [] s = s
add_block (suc n) (x ∷ xs) s = add_block n xs (add_byte s x)

-- The loop of single bytes.
add_rest : List ℕ → Adler32 → Adler32
add_rest [] s = s
add_rest (x ∷ xs) s = add_rest xs (add_byte s x)

-- The unrolled loop over a chunk; `xs` is the chunk from `i` on. A round takes 16 bytes.
add_chunk : ℕ → List ℕ → Adler32 → Adler32
unfolding add_block add_rest add_byte
add_chunk zero xs s = add_rest xs s
add_chunk (suc fuel) xs s =
    let more = add_chunk fuel (drop 16 xs) (add_block 16 xs s) in
    if leb 16 (length xs) then more else add_rest xs s

reduce : Adler32 → Adler32
reduce s = record { a = s.a % base; b = s.b % base }

-- The loop over chunks; `xs` is `data` from `offset` on. A round takes a byte at least.
chunks : ℕ → List ℕ → Adler32 → Adler32
unfolding add_chunk reduce
chunks zero xs s = s
chunks (suc fuel) xs s =
    let chunk = take (min nmax (length xs)) xs in
    let more = chunks fuel (drop nmax xs) (reduce (add_chunk (length chunk) chunk s)) in
    if ltb 0 (length xs) then more else s

pub update : List ℕ → Adler32 → Adler32
unfolding chunks
update bytes s = chunks (length bytes) bytes s

unfoldable pub value : Adler32 → ℕ
value s = bit_or (u32 (s.b <<< 16)) s.a

-- The one-shot function.
unfoldable pub adler32 : List ℕ → ℕ
unfolding new update value
adler32 bytes = value (update bytes new)
