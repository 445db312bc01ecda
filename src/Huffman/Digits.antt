-- ===== src/Huffman/Digits.antt =====
-- The codes of src/huffman.rs by their digits: `reverse_bits` as a recursion, and its order.
use mathlib.Core.List.{reverse_aux}
use native.Mathlib.Nat.{
  pow-suc, div-one, mod-eq_of_lt, div-eq_of_lt, add-mul-div_right, mod-eq-sub-div-mul, mod-lt,
  div-mul-le_self,
}
use native.Mathlib.Decide.{dec_lt}
use noflate.Base.{
  ℕ, zero, suc, ◌+◌, ◌-◌, ◌*◌, ◌/◌, ◌%◌, ◌^◌, ◌≤◌, ◌<◌, ◌≡◌, refl, sym, ap, ◌∙◌, ◌⊎◌, inl, inr,
  List, [], ◌∷◌, arith,
}
use noflate.Base.Bits.{two_pow_add, two_pow_le, div-two_pow-suc}
use noflate.Bit.View.{bits, value, value-bits}
use noflate.Huffman.Codes.{reverse_bits}
use noflate.Huffman.Reversal.{reverse_bits-reverse}

-- The `n` low digits of a number in the other order.
unfoldable pub rev : ℕ → ℕ → ℕ
rev zero i = 0
rev (suc n) i = i % 2 * 2 ^ n + rev n (i / 2)

pub rev_below : (n i : ℕ) → rev n i < 2 ^ n
unfolding rev
rev_below zero i = omega arith
rev_below (suc n) i = elim (low i) [
  | inl e ↦ rw e (omega (arith, rev_below n (i / 2), pow-suc 2 n))
  | inr e ↦ rw e (omega (arith, rev_below n (i / 2), pow-suc 2 n))
]
  where
    low : (i : ℕ) → (i % 2 ≡ 0) ⊎ (i % 2 ≡ 1)
    low i = omega arith

pub rev_zero : (n : ℕ) → rev n 0 ≡ 0
unfolding rev
rev_zero zero = refl
rev_zero (suc n) = omega (arith, rev_zero n)

-- The high part of a number gives the low digits.
pub rev_add : (n k i : ℕ) → rev (n + k) i ≡ rev n i * 2 ^ k + rev k (i / 2 ^ n)
unfolding rev
rev_add zero k i = let e : 0 + k ≡ k = omega arith in rw (e, div-one) (omega arith)
rev_add (suc n) k i =
    let e : suc n + k ≡ suc (n + k) = omega arith in
    rw (e, div-two_pow-suc) (rw (rev_add n k (i / 2), two_pow_add) (grind arith))

pub rev_high : (n y i : ℕ) → rev n (i + y * 2 ^ n) ≡ rev n i
unfolding rev
rev_high zero y i = refl
rev_high (suc n) y i =
    let e : i + y * 2 ^ suc n ≡ i + y * 2 ^ n * 2 =
      omega (arith, ap (λ (t : ℕ). y * t) (pow-suc 2 n)) in
    let low : (i + y * 2 ^ n * 2) % 2 ≡ i % 2 = omega arith in
    let high : (i + y * 2 ^ n * 2) / 2 ≡ i / 2 + y * 2 ^ n = omega arith in
    rw (e, low, high, rev_high n y (i / 2)) refl

pub rev_mod : (n i : ℕ) → rev n (i % 2 ^ n) ≡ rev n i
rev_mod n i =
    let e : i ≡ i % 2 ^ n + i / 2 ^ n * 2 ^ n =
      omega (arith, mod-eq-sub-div-mul i (2 ^ n), div-mul-le_self i (2 ^ n)) in
    sym (rev_high n (i / 2 ^ n) (i % 2 ^ n)) ∙ ap (rev n) (sym e)

div_join : (n x y : ℕ) → x < 2 ^ n → (x + y * 2 ^ n) / 2 ^ n ≡ y
div_join n x y h = omega (arith, add-mul-div_right x y {z = 2 ^ n} (omega arith), div-eq_of_lt h)

rev_last :
    (n i y : ℕ) → rev n y ≡ i / 2 → y / 2 ^ n ≡ i % 2 → rev n y * 2 ^ 1 + rev 1 (y / 2 ^ n) ≡ i
unfolding rev
rev_last n i y again top = rw (again, top) (omega arith)

pub rev-rev : (n i : ℕ) → i < 2 ^ n → rev n (rev n i) ≡ i
rev-rev zero i h = unfold rev in omega arith
rev-rev (suc n) i h =
    let y = i % 2 * 2 ^ n + rev n (i / 2) in
    let swap : y ≡ rev n (i / 2) + i % 2 * 2 ^ n = omega arith in
    let one : suc n ≡ n + 1 = omega arith in
    let first : rev (suc n) i ≡ y = unfold rev in refl in
    let again : rev n y ≡ i / 2 =
      ap (rev n) swap
      ∙ rev_high n (i % 2) (rev n (i / 2))
      ∙ rev-rev n (i / 2) (omega (arith, pow-suc 2 n)) in
    let top : y / 2 ^ n ≡ i % 2 =
      ap (λ (t : ℕ). t / 2 ^ n) swap ∙ div_join n (rev n (i / 2)) (i % 2) (rev_below n (i / 2)) in
    ap (rev (suc n)) first ∙ ap (λ k. rev k y) one ∙ rev_add n 1 y ∙ rev_last n i y again top

value-reverse_aux :
    (n b : ℕ) (acc : List ℕ) → value (reverse_aux (bits n b) acc) ≡ rev n b + 2 ^ n * value acc
unfolding rev
value-reverse_aux zero b acc = omega arith
value-reverse_aux (suc n) b acc =
    value-reverse_aux n (b / 2) ((b % 2) ∷ acc)
    ∙ grind (arith, ap (λ (t : ℕ). t * value acc) (pow-suc 2 n))

-- `reverse_bits` is that recursion.
pub reverse_bits-rev : (b width : ℕ) → width ≤ 16 → reverse_bits b width ≡ rev width b
reverse_bits-rev b width h =
    let (small, digits) = reverse_bits-reverse b width h in
    sym (value-bits width (reverse_bits b width) ∙ mod-eq_of_lt small)
    ∙ ap value digits
    ∙ value-reverse_aux width b []
    ∙ omega arith

-- A prefix of a number's digits, with zeros behind, comes no later in the order of the codes.
pub rev_prefix : (top p i : ℕ) → p ≤ top → rev top (i % 2 ^ p) ≤ rev top i
rev_prefix top p i h =
    let e : top ≡ p + (top - p) = omega arith in
    let none_left : i % 2 ^ p / 2 ^ p ≡ 0 =
      div-eq_of_lt (mod-lt i (omega (arith, two_pow_le 0 p (omega arith)))) in
    let part : rev top (i % 2 ^ p) ≡ rev p i * 2 ^ (top - p) =
      ap (λ k. rev k (i % 2 ^ p)) e
      ∙ rev_add p (top - p) (i % 2 ^ p)
      ∙ rw (rev_mod p i, none_left, rev_zero (top - p)) (omega arith) in
    let whole : rev top i ≡ rev p i * 2 ^ (top - p) + rev (top - p) (i / 2 ^ p) =
      ap (λ k. rev k i) e ∙ rev_add p (top - p) i in
    omega (arith, part, whole)

pub times : (a c q : ℕ) → a ≤ c → a * q ≤ c * q
times a c q h = grind arith

-- The numbers between two neighbouring codes of `width` bits end with the digits of the lower one.
pub rev_between :
    (top width code i : ℕ)
    → width ≤ top
    → code * 2 ^ (top - width) ≤ rev top i
    → rev top i < (code + 1) * 2 ^ (top - width)
    → i % 2 ^ width ≡ rev width code
rev_between top width code i h low high =
    let e : top ≡ width + (top - width) = omega arith in
    let whole : rev top i ≡ rev width i * 2 ^ (top - width) + rev (top - width) (i / 2 ^ width) =
      ap (λ k. rev k i) e ∙ rev_add width (top - width) i in
    let below = rev_below (top - width) (i / 2 ^ width) in
    let same : rev width i ≡ code =
      squeezed (rev width i) code (2 ^ (top - width)) _ whole below low high in
    sym (rev-rev width (i % 2 ^ width) (mod-lt i (omega (arith, two_pow_le 0 width (omega arith)))))
    ∙ ap (rev width) (rev_mod width i ∙ same)
  where
    squeezed :
        (a c q low : ℕ) {x : ℕ} → x ≡ a * q + low → low < q → c * q ≤ x → x < (c + 1) * q → a ≡ c
    squeezed a c q low e below lo hi = elim (dec_lt a c) [
      | yes less ↦ absurd (omega (arith, times (a + 1) c q (omega arith)))
      | no ge ↦ elim (dec_lt c a) [
        | yes more ↦ absurd (omega (arith, times (c + 1) a q (omega arith)))
        | no le ↦ omega arith
      ]
    ]
