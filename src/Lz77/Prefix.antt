-- ===== src/Lz77/Prefix.antt =====
-- `longest_common_prefix` of src/lz77.rs: 8 bytes at a time, then byte by byte.
use noflate.Base.{
  ℕ, zero, suc, ◌+◌, ◌-◌, ◌*◌, ◌/◌, ◌%◌, min, ◌&&◌, List, length, get_or, leb, ltb, ◌==◌,
  if◌then◌else◌, bit_xor,
}

-- `u64::from_le_bytes` of the `n` bytes from `i` on, for `n` 8.
unfoldable pub le_word : ℕ → List ℕ → ℕ → ℕ
le_word zero xs i = 0
le_word (suc n) xs i = get_or xs i 0 + 256 * le_word n xs (i + 1)

-- `trailing_zeros` of a number that is not 0 and has at most `n` digits.
unfoldable pub trailing_zeros : ℕ → ℕ → ℕ
trailing_zeros zero x = 0
trailing_zeros (suc n) x = if x % 2 == 0 then 1 + trailing_zeros n (x / 2) else 0

module _ (input : List ℕ) (a b bounded : ℕ) where
  -- The loop over single bytes, with the rounds left at most `n`.
  unfoldable pub match_bytes : ℕ → ℕ → ℕ
  match_bytes zero i = i
  match_bytes (suc n) i =
      let more = match_bytes n (i + 1) in
      if ltb i bounded && (get_or input (a + i) 0 == get_or input (b + i) 0) then more else i

  -- The loop over words, then that over bytes.
  unfoldable pub match_words : ℕ → ℕ → ℕ
  unfolding match_bytes le_word trailing_zeros
  match_words zero i = match_bytes (bounded - i) i
  match_words (suc n) i =
      let diff = bit_xor (le_word 8 input (a + i)) (le_word 8 input (b + i)) in
      let more = match_words n (i + 8) in
      if leb (i + 8) bounded
      then (if diff == 0 then more else i + trailing_zeros 64 diff / 8)
      else match_bytes (bounded - i) i

unfoldable pub longest_common_prefix : List ℕ → ℕ → ℕ → ℕ → ℕ
unfolding match_words
longest_common_prefix input a b most =
    let bounded = min most (length input - b) in match_words input a b bounded bounded 0
