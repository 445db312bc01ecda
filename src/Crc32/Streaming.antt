-- ===== src/Crc32/Streaming.antt =====
-- The two loops of `Crc32::update` of src/crc32.rs against the division one bit at a time.
use native.Mathlib.Decide.{dec_le}
use noflate.Base.{
  get_or-drop, get_or_byte, ℕ, zero, suc, ◌+◌, ◌*◌, ◌^◌, ◌<◌, ◌≤◌, ◌≡◌, refl, sym, ap, ap₂, ◌∙◌,
  List, [], ◌∷◌, ◌++◌, arith, length, length-drop, All-drop, All-append, drop-drop, drop, bit_xor,
  IsByte, IsBytes, le→leb, lt→leb_false,
}
use noflate.Base.Bits.{zero_xor, xor_assoc, xor_comm}
use noflate.Crc32.{Crc32, shift_bits, le_word, slice_step, slices, update, value}
use noflate.Crc32.Bitwise.{
  bitwise, xor_shifted, shift_bits_xor, shift_bits_add, shift_bits_shifted, bitwise_below,
  bitwise-append, xor_below, shift_bits_below,
}
use noflate.Crc32.Slices.{word_entries_lem, byte_steps_lem}

-- A byte at the low end of a register.
absorb :
    (j x y c : ℕ)
    → x < 256
    → shift_bits (8 + j) (bit_xor c (x + y * 2 ^ 8))
      ≡ shift_bits j (bit_xor (shift_bits 8 (bit_xor c x)) y)
absorb j x y c h =
    shift_bits_add 8 j (bit_xor c (x + y * 2 ^ 8))
    ∙ ap (shift_bits j) (
        ap (λ t. shift_bits 8 (bit_xor c t)) (sym (xor_shifted 8 x y h))
        ∙ ap (shift_bits 8) (sym (xor_assoc c x (y * 2 ^ 8)))
        ∙ shift_bits_xor 8 (bit_xor c x) (y * 2 ^ 8)
        ∙ ap (bit_xor (shift_bits 8 (bit_xor c x))) (shift_bits_shifted 8 y))

-- A word at once.
word_step : ℕ → ℕ → ℕ
word_step w c = shift_bits 32 (bit_xor c w)

bitwise_word :
    (xs : List ℕ) (c : ℕ)
    → 4 ≤ length xs
    → IsBytes xs
    → bitwise xs c ≡ bitwise (drop 4 xs) (word_step (le_word xs 0) c)
unfolding word_step le_word shift_bits
bitwise_word [] c h b = absurd (omega arith)
bitwise_word (x0 ∷ []) c h b = absurd (omega arith)
bitwise_word (x0 ∷ (x1 ∷ [])) c h b = absurd (omega arith)
bitwise_word (x0 ∷ (x1 ∷ (x2 ∷ []))) c h b = absurd (omega arith)
bitwise_word (x0 ∷ (x1 ∷ (x2 ∷ (x3 ∷ rest)))) c h (b0, (b1, (b2, (b3, b)))) =
    let w : x0 + x1 * 256 + x2 * 65536 + x3 * 16777216
        ≡ x0 + (x1 + (x2 + (x3 + 0 * 2 ^ 8) * 2 ^ 8) * 2 ^ 8) * 2 ^ 8 =
      omega arith in
    rw
      (
        w,
        absorb 24 x0 _ c b0,
        absorb 16 x1 _ _ b1,
        absorb 8 x2 _ _ b2,
        absorb 0 x3 0 _ b3,
        zero_xor,
      )
      refl

le_word-drop : (n : ℕ) (xs : List ℕ) → le_word (drop n xs) 0 ≡ le_word xs n
unfolding le_word
le_word-drop n xs =
    let e : n + 0 ≡ n = omega arith in
    rw (get_or-drop n xs 0 0, get_or-drop n xs 1 0, get_or-drop n xs 2 0, get_or-drop n xs 3 0, e)
      refl

next_word :
    (n : ℕ) (xs : List ℕ) (c : ℕ)
    → n + 4 ≤ length xs
    → IsBytes xs
    → bitwise (drop n xs) c ≡ bitwise (drop (n + 4) xs) (word_step (le_word xs n) c)
next_word n xs c h b =
    bitwise_word (drop n xs) c (omega (arith, length-drop {0} n xs)) (All-drop IsByte n xs b)
    ∙ ap₂ bitwise (drop-drop 4 n xs) (ap (λ w. word_step w c) (le_word-drop n xs))

-- The four words of a round.
four_words : List ℕ → ℕ → ℕ
four_words xs c =
    word_step (le_word xs 12)
      (word_step (le_word xs 8) (word_step (le_word xs 4) (word_step (le_word xs 0) c)))

bitwise-four_words :
    (xs : List ℕ) (c : ℕ)
    → 16 ≤ length xs
    → IsBytes xs
    → bitwise xs c ≡ bitwise (drop 16 xs) (four_words xs c)
unfolding four_words
bitwise-four_words xs c h b =
    next_word 0 xs c (omega arith) b
    ∙ next_word 4 xs _ (omega arith) b
    ∙ next_word 8 xs _ (omega arith) b
    ∙ next_word 12 xs _ (omega arith) b

le_word_below : (xs : List ℕ) (i : ℕ) → IsBytes xs → le_word xs i < 2 ^ 32
unfolding le_word
le_word_below xs i b = omega (
  arith,
  get_or_byte xs i b,
  get_or_byte xs (i + 1) b,
  get_or_byte xs (i + 2) b,
  get_or_byte xs (i + 3) b,
)

-- Dividing by four words in turn is one exclusive or of the quotients.
spread :
    (z v w x : ℕ)
    → bit_xor
        (bit_xor (bit_xor (shift_bits 128 z) (shift_bits 96 v)) (shift_bits 64 w))
        (shift_bits 32 x)
      ≡ word_step x (word_step w (word_step v (shift_bits 32 z)))
unfolding word_step
spread z v w x =
    rw
      (
        shift_bits_add 32 96 z,
        shift_bits_add 32 64 (shift_bits 32 z),
        shift_bits_add 32 32 (shift_bits 32 (shift_bits 32 z)),
        shift_bits_add 32 64 v,
        shift_bits_add 32 32 (shift_bits 32 v),
        shift_bits_add 32 32 w,
      )
      (simp shift_bits_xor refl)

slice_step_lem : (xs : List ℕ) (c : ℕ) → c < 2 ^ 32 → IsBytes xs → slice_step xs c ≡ four_words xs c
unfolding slice_step four_words
slice_step_lem xs c h b =
    rw
      (
        word_entries_lem 12 (bit_xor (le_word xs 0) c) (xor_below 32 _ c (le_word_below xs 0 b) h),
        word_entries_lem 8 (le_word xs 4) (le_word_below xs 4 b),
        word_entries_lem 4 (le_word xs 8) (le_word_below xs 8 b),
        word_entries_lem 0 (le_word xs 12) (le_word_below xs 12 b),
        xor_comm (le_word xs 0) c,
      )
      (unfold word_step in
        spread (bit_xor c (le_word xs 0)) (le_word xs 4) (le_word xs 8) (le_word xs 12))

word_step_below :
    (xs : List ℕ) (i c : ℕ) → c < 2 ^ 32 → IsBytes xs → word_step (le_word xs i) c < 2 ^ 32
unfolding word_step
word_step_below xs i c h b =
    shift_bits_below 32 _ (xor_below 32 c (le_word xs i) h (le_word_below xs i b))

four_words_below : (xs : List ℕ) (c : ℕ) → c < 2 ^ 32 → IsBytes xs → four_words xs c < 2 ^ 32
unfolding four_words
four_words_below xs c h b =
    let next = λ (i c : ℕ) (h : c < 2 ^ 32). word_step_below xs i c h b in
    next 12 _ (next 8 _ (next 4 _ (next 0 c h)))

slices-bitwise :
    (fuel : ℕ) (xs : List ℕ) (c : ℕ) → c < 2 ^ 32 → IsBytes xs → slices fuel xs c ≡ bitwise xs c
unfolding slices
slices-bitwise zero xs c h b = byte_steps_lem xs c b
slices-bitwise (suc fuel) xs c h b = elim (dec_le 16 (length xs)) [
  | yes big ↦
      rw (le→leb 16 (length xs) big, slice_step_lem xs c h b)
        (slices-bitwise fuel (drop 16 xs) (four_words xs c) (four_words_below xs c h b)
            (All-drop IsByte 16 xs b)
          ∙ sym (bitwise-four_words xs c big b))
  | no less ↦ rw (lt→leb_false 16 (length xs) (omega arith)) (byte_steps_lem xs c b)
]

-- On bytes and a 32-bit state, the tables and the rounds of 16 bytes compute the division one bit at
-- a time.
pub update-bitwise :
    (xs : List ℕ) (s : Crc32)
    → s.state < 2 ^ 32
    → IsBytes xs
    → (update xs s).state ≡ bitwise xs s.state
unfolding update
update-bitwise xs s h b = slices-bitwise (length xs) xs s.state h b

pub update-nil_crc32 : (s : Crc32) → update [] s ≡ s
unfolding update
update-nil_crc32 s = refl

pub update-append_state :
    (xs ys : List ℕ) (s : Crc32)
    → s.state < 2 ^ 32
    → IsBytes xs
    → IsBytes ys
    → update ys (update xs s) ≡ update (xs ++ ys) s
update-append_state xs ys s h b d =
    let e = update-bitwise xs s h b in
    let below : (update xs s).state < 2 ^ 32 = rw e (bitwise_below xs s.state h b) in
    ap (λ (n : ℕ). record { state = n })
      (update-bitwise ys (update xs s) below d
        ∙ ap (bitwise ys) e
        ∙ sym (bitwise-append xs ys s.state)
        ∙ sym (update-bitwise (xs ++ ys) s h (All-append IsByte xs ys b d)))

-- From a 32-bit state, the checksum of two pieces of bytes fed in turn is that of the pieces joined.
pub update-append_crc32 :
    (xs ys : List ℕ) (s : Crc32)
    → s.state < 2 ^ 32
    → IsBytes xs
    → IsBytes ys
    → value (update ys (update xs s)) ≡ value (update (xs ++ ys) s)
update-append_crc32 xs ys s h b d = ap value (update-append_state xs ys s h b d)
