-- ===== src/Adler32/Reference.antt =====
-- Adler-32 as RFC 1950 defines it: two sums modulo 65521, with no chunks and no wrap-around.
use native.Mathlib.Decide.{dec_le}
use noflate.Base.{
  ℕ, zero, suc, ◌+◌, ◌*◌, ◌%◌, ◌^◌, ◌≤◌, ◌<◌, min, ◌≡◌, refl, sym, ap, ap₂, ◌∙◌, List, [], ◌∷◌,
  ◌++◌, take, drop, length, length-take, length-drop, take-append-drop, append-nil, drop-le, IsByte,
  IsBytes, All-take, All-drop, All-append, arith, lt→ltb, le→leb, lt→leb_false, take-le, u32,
}
use noflate.Base.Bits.{or_comm, or_shifted}
use noflate.Adler32.{
  Adler32, new, base, nmax, add_byte, add_block, add_rest, add_chunk, reduce, chunks, update, value,
}

-- One byte, modulo 65521.
unfoldable pub sum_byte : Adler32 → ℕ → Adler32
sum_byte s x = let a = (s.a + x) % base in record { a = a; b = (s.b + a) % base }

pub sums : List ℕ → Adler32 → Adler32
unfolding sum_byte
sums [] s = s
sums (x ∷ xs) s = sums xs (sum_byte s x)

-- Both sums are remainders.
pub record IsReduced (s : Adler32) : Type 0 where
  pub a_small : s.a < base
  pub b_small : s.b < base

-- After `n` bytes of a chunk: no sum has passed the bounds that keep it in 32 bits.
record Within (n : ℕ) (s : Adler32) : Type 0 where
  a_bound : s.a ≤ 65520 + 255 * n
  b_bound : 2 * s.b ≤ 131040 + 131040 * n + 255 * (n * n) + 255 * n

-- The loop of single bytes is the whole chunk; the unrolled one adds the same bytes.
add_block-add_rest :
    (n : ℕ) (xs : List ℕ) (s : Adler32)
    → n ≤ length xs
    → add_rest xs s ≡ add_rest (drop n xs) (add_block n xs s)
unfolding add_block add_rest
add_block-add_rest zero xs s h = refl
add_block-add_rest (suc n) [] s h = absurd (omega arith)
add_block-add_rest (suc n) (x ∷ xs) s h = add_block-add_rest n xs (add_byte s x) (omega arith)

add_chunk-add_rest : (fuel : ℕ) (xs : List ℕ) (s : Adler32) → add_chunk fuel xs s ≡ add_rest xs s
unfolding add_chunk
add_chunk-add_rest zero xs s = refl
add_chunk-add_rest (suc fuel) xs s = elim (dec_le 16 (length xs)) [
  | yes whole ↦ rw (le→leb 16 (length xs) whole) (
      add_chunk-add_rest fuel (drop 16 xs) (add_block 16 xs s)
      ∙ sym (add_block-add_rest 16 xs s whole))
  | no part ↦ rw (lt→leb_false 16 (length xs) (omega arith))
]

square_bound : (n : ℕ) → n ≤ 5551 → n * n ≤ 5551 * 5551
square_bound n h = grind arith

-- Neither `wrapping_add` wraps.
no_wrap :
    (n x : ℕ) (s : Adler32)
    → n < nmax
    → x < 256
    → Within n s
    → (u32 (s.a + x) ≡ s.a + x) × (u32 (s.b + (s.a + x)) ≡ s.b + (s.a + x))
no_wrap n x s h byte w = omega (arith, w.a_bound, w.b_bound, square_bound n (omega arith))

-- A byte keeps the bounds, wraps nothing, and agrees with the reference modulo 65521.
add_byte-Within :
    (n x : ℕ) (s : Adler32) → n < nmax → x < 256 → Within n s → Within (suc n) (add_byte s x)
unfolding add_byte
add_byte-Within n x s h byte w =
    let exact = no_wrap n x s h byte w in
    rw (exact.0, exact.1)
      (record { a_bound = omega (arith, w.a_bound); b_bound = omega (arith, w.a_bound, w.b_bound) })

reduce-add_byte :
    (n x : ℕ) (s : Adler32)
    → n < nmax
    → x < 256
    → Within n s
    → reduce (add_byte s x) ≡ sum_byte (reduce s) x
unfolding reduce add_byte sum_byte
reduce-add_byte n x s h byte w =
    let exact = no_wrap n x s h byte w in
    rw (exact.0, exact.1) (ap₂ (λ (a b : ℕ). record { a = a; b = b }) (omega arith) (omega arith))

reduce-add_rest :
    (xs : List ℕ) (n : ℕ) (s : Adler32)
    → n + length xs ≤ nmax
    → IsBytes xs
    → Within n s
    → reduce (add_rest xs s) ≡ sums xs (reduce s)
unfolding add_rest sums
reduce-add_rest [] n s h bytes w = refl
reduce-add_rest (x ∷ xs) n s h bytes w =
    reduce-add_rest xs (suc n) (add_byte s x) (omega arith) bytes.1
      (add_byte-Within n x s (omega arith) bytes.0 w)
    ∙ ap (sums xs) (reduce-add_byte n x s (omega arith) bytes.0 w)

sums-append : (xs ys : List ℕ) (s : Adler32) → sums (xs ++ ys) s ≡ sums ys (sums xs s)
unfolding sums
sums-append [] ys s = refl
sums-append (x ∷ xs) ys s = sums-append xs ys (sum_byte s x)

sums-IsReduced : (xs : List ℕ) (s : Adler32) → IsReduced s → IsReduced (sums xs s)
unfolding sums
sums-IsReduced [] s r = r
sums-IsReduced (x ∷ xs) s r = sums-IsReduced xs (sum_byte s x) (unfold sum_byte in omega arith)

reduce-IsReduced : (s : Adler32) → IsReduced s → reduce s ≡ s
unfolding reduce
reduce-IsReduced s r = ground arith

-- A chunk of at most 5552 bytes.
reduce-add_chunk :
    (fuel : ℕ) (xs : List ℕ) (s : Adler32)
    → length xs ≤ nmax
    → IsBytes xs
    → IsReduced s
    → reduce (add_chunk fuel xs s) ≡ sums xs s
reduce-add_chunk fuel xs s h bytes r =
    ap reduce (add_chunk-add_rest fuel xs s)
    ∙ reduce-add_rest xs 0 s (omega arith) bytes
        (record { a_bound = omega (arith, r.a_small); b_bound = omega (arith, r.b_small) })
    ∙ ap (sums xs) (reduce-IsReduced s r)

chunk_split : (m : ℕ) (xs : List ℕ) → take (min m (length xs)) xs ++ drop m xs ≡ xs
chunk_split m xs = elim (dec_le m (length xs)) [
  | yes big ↦
      let e : min m (length xs) ≡ m = omega arith in
      ap (λ n. take n xs ++ drop m xs) e ∙ take-append-drop m xs
  | no small ↦
      let e : min m (length xs) ≡ length xs = omega arith in
      ap (λ n. take n xs ++ drop m xs) e
      ∙ ap₂ ◌++◌ (take-le (length xs) xs (omega arith)) (drop-le m xs (omega arith))
      ∙ append-nil xs
]

chunks_round :
    (fuel : ℕ) (xs : List ℕ) (s : Adler32)
    → 0 < length xs
    → IsBytes xs
    → IsReduced s
    → chunks (suc fuel) xs s ≡ chunks fuel (drop nmax xs) (sums (take (min nmax (length xs)) xs) s)
unfolding chunks
chunks_round fuel xs s h bytes r =
    let chunk = take (min nmax (length xs)) xs in
    rw (lt→ltb 0 (length xs) h) (
      ap (chunks fuel (drop nmax xs)) (
        reduce-add_chunk (length (take (min nmax (length xs)) xs)) (take (min nmax (length xs)) xs)
          s (omega (arith, length-take {0} (min nmax (length xs)) xs))
          (All-take IsByte (min nmax (length xs)) xs bytes) r))

chunks-sums :
    (fuel : ℕ) (xs : List ℕ) (s : Adler32)
    → length xs ≤ fuel
    → IsBytes xs
    → IsReduced s
    → chunks fuel xs s ≡ sums xs s
chunks-sums zero [] s h bytes r = unfold sums chunks in refl
chunks-sums zero (x ∷ xs) s h bytes r = absurd (omega arith)
chunks-sums (suc fuel) [] s h bytes r = unfold sums chunks in refl
chunks-sums (suc fuel) (x ∷ xs) s h bytes r =
    let all = x ∷ xs in
    let chunk = take (min nmax (length all)) all in
    chunks_round fuel all s (omega arith) bytes r
    ∙ chunks-sums fuel (drop nmax (x ∷ xs)) (sums chunk s) (omega (arith, length-drop {0} nmax all))
        (All-drop IsByte nmax all bytes) (sums-IsReduced chunk s r)
    ∙ sym (sums-append chunk (drop nmax all) s)
    ∙ ap (λ l. sums l s) (chunk_split nmax all)

-- On bytes and a state with both sums below 65521, the chunked and unrolled update computes the two
-- sums of RFC 1950.
pub update-sums : (xs : List ℕ) (s : Adler32) → IsBytes xs → IsReduced s → update xs s ≡ sums xs s
unfolding update
update-sums xs s bytes r = chunks-sums (length xs) xs s (omega arith) bytes r

-- An update with bytes keeps both sums below 65521.
pub update-IsReduced :
    (xs : List ℕ) (s : Adler32) → IsBytes xs → IsReduced s → IsReduced (update xs s)
update-IsReduced xs s bytes r = rw (update-sums xs s bytes r) (sums-IsReduced xs s r)

-- From a state with both sums below 65521, feeding bytes in two parts is feeding them whole.
pub update-append :
    (xs ys : List ℕ) (s : Adler32)
    → IsBytes xs
    → IsBytes ys
    → IsReduced s
    → update (xs ++ ys) s ≡ update ys (update xs s)
update-append xs ys s bx by r =
    update-sums (xs ++ ys) s (All-append IsByte xs ys bx by) r
    ∙ sums-append xs ys s
    ∙ ap (sums ys) (sym (update-sums xs s bx r))
    ∙ sym (update-sums ys (update xs s) by (update-IsReduced xs s bx r))

-- The checksum of a state with both sums below 65521 is the second sum times 65536 and the first.
pub value-sums : (s : Adler32) → IsReduced s → value s ≡ s.b * 65536 + s.a
unfolding value
value-sums s r =
    let cast : u32 (s.b * 2 ^ 16) ≡ s.b * 2 ^ 16 = omega (arith, r.b_small) in
    rw (cast, or_comm, or_shifted 16 s.a s.b (omega (arith, r.a_small))) (omega arith)

pub update-nil : (s : Adler32) → update [] s ≡ s
unfolding update
update-nil s = refl

pub new-IsReduced : IsReduced new
unfolding new
new-IsReduced = record { a_small = omega arith; b_small = omega arith }
