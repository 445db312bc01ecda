-- ===== src/Lz77/Matches.antt =====
-- `longest_common_prefix` of src/lz77.rs against the count of equal leading bytes.
use native.Mathlib.Decide.{ℕ_discrete, dec_lt, dec_le}
use noflate.Base.{
  get_or_byte, ℕ, zero, suc, ◌+◌, ◌-◌, ◌*◌, ◌/◌, ◌%◌, ◌^◌, ◌≤◌, ◌<◌, ◌≡◌, ◌≢◌, refl, sym, ap, ap₂,
  ◌∙◌, min, List, [], ◌∷◌, arith, length, drop, get_or, drop-cons_get, ◌==◌, if◌then◌else◌, bit_xor,
  IsBytes, lt→ltb, le→leb, lt→leb_false, true, false,
}
use noflate.Base.Bits.{xor_self}
use noflate.Lz77.Prefix.{le_word, trailing_zeros, match_bytes, match_words, longest_common_prefix}
use noflate.Lz77.Mismatch.{
  xor_equal, trailing_zeros_low, trailing_zeros_shifted, xor_words, xor_byte, pick,
}

-- How many leading bytes two lists share.
abbrev pub common : List ℕ → List ℕ → ℕ
common [] ys = 0
common (x ∷ xs) [] = 0
common (x ∷ xs) (y ∷ ys) = let more = common xs ys in if x == y then suc more else 0

module _ (input : List ℕ) (a b bounded : ℕ) where
  -- The byte loop from `i` on.
  bytes_from : ℕ → ℕ
  bytes_from i = match_bytes input a b bounded (bounded - i) i

  -- The bytes of both sides `i` on, as a difference of words.
  difference : ℕ → ℕ → ℕ
  difference n i = bit_xor (le_word n input (a + i)) (le_word n input (b + i))

  bytes_from_equal :
      (i : ℕ)
      → i < bounded
      → get_or input (a + i) 0 ≡ get_or input (b + i) 0
      → bytes_from i ≡ bytes_from (i + 1)
  unfolding bytes_from match_bytes
  bytes_from_equal i h e =
      let k : bounded - i ≡ suc (bounded - (i + 1)) = omega arith in
      rw (k, lt→ltb i bounded h, e) (ground arith)

  bytes_from_differs :
      (i : ℕ) → i < bounded → get_or input (a + i) 0 ≢ get_or input (b + i) 0 → bytes_from i ≡ i
  unfolding bytes_from match_bytes
  bytes_from_differs i h ne =
      let k : bounded - i ≡ suc (bounded - (i + 1)) = omega arith in rw k (ground arith)

  difference-suc :
      (n i : ℕ)
      → IsBytes input
      → difference (suc n) i
        ≡ bit_xor (get_or input (a + i) 0) (get_or input (b + i) 0) + difference n (i + 1) * 256
  unfolding difference le_word
  difference-suc n i bytes =
      let e : a + (i + 1) ≡ a + i + 1 = omega arith in
      let f : b + (i + 1) ≡ b + i + 1 = omega arith in
      rw (e, f)
        (xor_words (get_or input (a + i) 0) (get_or input (b + i) 0) _ _
          (get_or_byte input (a + i) bytes) (get_or_byte input (b + i) bytes))

  -- Words that do not differ are equal bytes.
  bytes_from_same_word :
      (n i : ℕ)
      → IsBytes input
      → i + n ≤ bounded
      → difference n i ≡ 0
      → bytes_from i ≡ bytes_from (i + n)
  bytes_from_same_word zero i bytes h d = let e : i + 0 ≡ i = omega arith in rw e refl
  bytes_from_same_word (suc n) i bytes h d =
      let split = difference-suc n i bytes in
      let e : i + suc n ≡ i + 1 + n = omega arith in
      rw e (
        bytes_from_equal i (omega arith) (xor_equal _ _ (omega (arith, split, d)))
        ∙ bytes_from_same_word n (i + 1) bytes (omega arith) (omega (arith, split, d)))

  -- The lowest bit in which two words differ stands in the first byte that differs.
  bytes_from_other_word :
      (n i : ℕ)
      → IsBytes input
      → i + n ≤ bounded
      → difference n i ≢ 0
      → bytes_from i ≡ i + trailing_zeros (8 * n) (difference n i) / 8
  bytes_from_other_word zero i bytes h d = absurd (d (unfold difference le_word in xor_self 0))
  bytes_from_other_word (suc n) i bytes h d =
      let x = get_or input (a + i) 0 in
      let y = get_or input (b + i) 0 in
      let split = difference-suc n i bytes in
      let more = difference n (i + 1) in
      let k : 8 * suc n ≡ 8 + 8 * n = omega arith in
      elim (ℕ_discrete x y) [
        | yes e ↦
            let none_low : bit_xor x y ≡ 0 = ap (λ t. bit_xor t y) e ∙ xor_self y in
            let shifted : difference (suc n) i ≡ more * 2 ^ 8 = omega (arith, split, none_low) in
            let rest =
              bytes_from_other_word n (i + 1) bytes (omega arith)
                (λ z. d (omega (arith, split, none_low, z))) in
            rw (shifted, k, trailing_zeros_shifted 8 (8 * n) more)
              (bytes_from_equal i (omega arith) e ∙ rest ∙ omega arith)
        | no ne ↦
            let byte : bit_xor x y < 256 =
              xor_byte x y (get_or_byte input (a + i) bytes) (get_or_byte input (b + i) bytes) in
            let low : difference (suc n) i % 2 ^ 8 ≢ 0 =
              λ z. ne (xor_equal x y (omega (arith, split, z, byte))) in
            let early = trailing_zeros_low 8 (8 * suc n) (difference (suc n) i) (omega arith) low in
            bytes_from_differs i (omega arith) ne ∙ omega (arith, early)
      ]

  match_words-bytes_from :
      (n i : ℕ) → IsBytes input → match_words input a b bounded n i ≡ bytes_from i
  unfolding match_words difference
  match_words-bytes_from zero i bytes = unfold bytes_from in refl
  match_words-bytes_from (suc n) i bytes = elim (dec_le (i + 8) bounded) [
    | no near ↦ rw (lt→leb_false (i + 8) bounded (omega arith)) (unfold bytes_from in refl)
    | yes far ↦ rw (le→leb (i + 8) bounded far) (
        pick (difference 8 i) (match_words input a b bounded n (i + 8))
          (i + trailing_zeros 64 (difference 8 i) / 8) (bytes_from i)
          (λ z. match_words-bytes_from n (i + 8) bytes ∙ sym (bytes_from_same_word 8 i bytes far z))
          (λ z. sym (bytes_from_other_word 8 i bytes far z)))
  ]

  -- The byte loop counts the equal bytes, `bounded` at most.
  bytes_from-common :
      (k i : ℕ)
      → bounded - i ≤ k
      → a ≤ b
      → b + bounded ≤ length input
      → bytes_from i ≡ i + min (bounded - i) (common (drop (a + i) input) (drop (b + i) input))
  bytes_from-common zero i h ab fits =
      let e : bounded - i ≡ 0 = omega arith in unfold bytes_from match_bytes in rw e (omega arith)
  bytes_from-common (suc k) i h ab fits = elim (dec_lt i bounded) [
    | no past ↦
        let e : bounded - i ≡ 0 = omega arith in unfold bytes_from match_bytes in rw e (omega arith)
    | yes inside ↦
        let x = get_or input (a + i) 0 in
        let y = get_or input (b + i) 0 in
        let next_a : drop (a + i) input ≡ x ∷ drop (a + (i + 1)) input =
          drop-cons_get (a + i) input 0 (omega arith)
          ∙ ap (λ n. x ∷ drop n input) {x = suc (a + i)} {y = a + (i + 1)} (omega arith) in
        let next_b : drop (b + i) input ≡ y ∷ drop (b + (i + 1)) input =
          drop-cons_get (b + i) input 0 (omega arith)
          ∙ ap (λ n. y ∷ drop n input) {x = suc (b + i)} {y = b + (i + 1)} (omega arith) in
        let more = bytes_from-common k (i + 1) (omega arith) ab fits in
        rw (next_a, next_b)
          (elim (ℕ_discrete x y) [
            | yes e ↦
                let same : (x == y) ≡ true = ground arith in
                rw same (bytes_from_equal i inside e ∙ more ∙ omega arith)
            | no ne ↦
                let other : (x == y) ≡ false = ground arith in
                rw other (bytes_from_differs i inside ne ∙ omega arith)
          ])
  ]

-- On bytes, the longest common prefix found 8 bytes at a time is the count of equal bytes from both
-- positions on, no more than asked for and no further than the input, where the first position is
-- not above the second and the second is within the input.
pub longest_common_prefix-common :
    (input : List ℕ) (a b most : ℕ)
    → IsBytes input
    → a ≤ b
    → b ≤ length input
    → longest_common_prefix input a b most
      ≡ min most (min (length input - b) (common (drop a input) (drop b input)))
unfolding longest_common_prefix
longest_common_prefix-common input a b most bytes ab inside =
    let bounded = min most (length input - b) in
    let za : a + 0 ≡ a = omega arith in
    let zb : b + 0 ≡ b = omega arith in
    match_words-bytes_from input a b bounded bounded 0 bytes
    ∙ bytes_from-common input a b bounded bounded 0 (omega arith) ab (omega arith)
    ∙ ap₂ (λ (i k : ℕ). 0 + min (bounded - 0) (common (drop i input) (drop k input))) za zb
    ∙ omega arith
