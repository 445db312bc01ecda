-- ===== src/Huffman/Reversal.antt =====
-- `reverse_bits` of src/huffman.rs on the binary digits of a code.
use mathlib.Core.List.{reverse_aux}
use mathlib.Core.Path.{subst}
use noflate.Base.{
  ℕ, zero, suc, ◌+◌, ◌*◌, ◌/◌, ◌%◌, ◌^◌, ◌≤◌, ◌<◌, ◌≡◌, refl, sym, ap, ◌∙◌, ◌∷◌, reverse, arith,
  u16, bit_or, bit_and,
}
use noflate.Base.Bits.{or_comm, or_shifted, and_mask, two_pow_add, two_pow_le}
use noflate.Bit.View.{bits}
use noflate.Huffman.Codes.{reverse_loop, reverse_bits}

-- A round puts the lowest digit of `from` below those of `to`.
round_digits :
    (j from to : ℕ)
    → j < 16
    → to < 2 ^ j
    → bit_or (u16 (to * 2)) (bit_and from 1) ≡ from % 2 + to * 2
round_digits j from to h fits =
    let small : 2 ^ j ≤ 2 ^ 15 = two_pow_le j 15 (omega arith) in
    let cast : to * 2 % 2 ^ 16 ≡ to * 2 = omega arith in
    rw (cast, and_mask 1 from)
      (or_comm (to * 2) (from % 2) ∙ or_shifted 1 (from % 2) to (omega arith) ∙ omega arith)

reverse_loop_lem :
    (n j from to : ℕ)
    → n + j ≤ 16
    → to < 2 ^ j
    → (reverse_loop n from to < 2 ^ (n + j))
      × (bits (n + j) (reverse_loop n from to) ≡ reverse_aux (bits n from) (bits j to))
unfolding reverse_loop
reverse_loop_lem zero j from to h fits = let e : 0 + j ≡ j = omega arith in rw e (fits, refl)
reverse_loop_lem (suc n) j from to h fits =
    let e : suc n + j ≡ n + (j + 1) = omega arith in
    let k : j + 1 ≡ suc j = omega arith in
    let to' = from % 2 + to * 2 in
    let low : to' % 2 ≡ from % 2 = omega arith in
    let high : to' / 2 ≡ to = omega arith in
    let digits : bits (j + 1) to' ≡ (from % 2) ∷ bits j to = rw (k, low, high) refl in
    let more =
      reverse_loop_lem n (j + 1) (from / 2) to' (omega arith) (omega (arith, two_pow_add j 1)) in
    rw (round_digits j from to (omega arith) fits, e)
      (more.0, more.1 ∙ ap (reverse_aux (bits n (from / 2))) digits)

-- Reversing a code of at most 16 bits keeps its width and reverses its digits.
pub reverse_bits-reverse :
    (b width : ℕ)
    → width ≤ 16
    → (reverse_bits b width < 2 ^ width)
      × (bits width (reverse_bits b width) ≡ reverse (bits width b))
unfolding reverse_bits
reverse_bits-reverse b width h =
    let e : width ≡ width + 0 = omega arith in
    let all = reverse_loop_lem width 0 b 0 (omega arith) (omega arith) in
    (
      subst (λ k. reverse_loop width b 0 < 2 ^ k) (sym e) all.0,
      ap (λ k. bits k (reverse_loop width b 0)) e ∙ all.1,
    )
