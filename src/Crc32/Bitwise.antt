-- ===== src/Crc32/Bitwise.antt =====
-- The polynomial division that the tables of src/crc32.rs hold, one bit at a time.
use native.Mathlib.Nat.{pow-suc, mod-eq_of_lt}
use native.Mathlib.Decide.{ℕ_discrete}
use noflate.Base.{
  ℕ, zero, suc, ◌+◌, ◌*◌, ◌/◌, ◌%◌, ◌^◌, ◌<◌, ◌≡◌, refl, sym, ap, ap₂, ◌∙◌, List, [], ◌∷◌, ◌++◌,
  arith, bit_xor, IsBytes,
}
use noflate.Base.Bits.{
  and_mask, xor_step, xor_zero, zero_xor, xor_assoc, xor_comm, xor-mod, xor_half, xor_low,
  two_pow_le,
}
use noflate.Crc32.{shift_bit, shift_bits, polynomial}

-- The checksum register after `xs`, with no table.
abbrev pub bitwise : List ℕ → ℕ → ℕ
bitwise [] c = c
bitwise (x ∷ xs) c = bitwise xs (shift_bits 8 (bit_xor c x))

-- `x ^ (y << k)` is a sum when `x` fits the `k` bits below.
pub xor_shifted : (k x y : ℕ) → x < 2 ^ k → bit_xor x (y * 2 ^ k) ≡ x + y * 2 ^ k
xor_shifted zero x y h = ground (arith, xor_zero y)
xor_shifted (suc k) x y h = ground (
  arith,
  xor_step x (y * 2 ^ suc k),
  ap (λ (t : ℕ). y * t) (pow-suc 2 k),
  pow-suc 2 k,
  xor_shifted k (x / 2) y (omega (arith, pow-suc 2 k)),
)

-- (a + b) + (c + d) for exclusive or
xor_swap : (a b c d : ℕ) → bit_xor (bit_xor a b) (bit_xor c d) ≡ bit_xor (bit_xor a c) (bit_xor b d)
xor_swap a b c d =
    xor_assoc a b (bit_xor c d)
    ∙ ap (bit_xor a)
        (sym (xor_assoc b c d) ∙ ap (λ t. bit_xor t d) (xor_comm b c) ∙ xor_assoc c b d)
    ∙ sym (xor_assoc a c (bit_xor b d))

-- What a bit that leaves the register adds.
feedback : ℕ → ℕ
feedback zero = 0
feedback (suc n) = polynomial

shift_bit-feedback : (c : ℕ) → shift_bit c ≡ bit_xor (c / 2) (feedback (c % 2))
unfolding shift_bit feedback
shift_bit-feedback c = elim (ℕ_discrete (c % 2) 0) [
  | yes e ↦ rw (and_mask 1 c, e) (sym (zero_xor (c / 2)))
  | no ne ↦ let e : c % 2 ≡ 1 = omega arith in rw (and_mask 1 c, e) refl
]

feedback_xor :
    (a b : ℕ) → a < 2 → b < 2 → feedback ((a + b) % 2) ≡ bit_xor (feedback a) (feedback b)
unfolding feedback
feedback_xor zero zero h g = refl
feedback_xor zero (suc zero) h g = refl
feedback_xor (suc zero) zero h g = refl
feedback_xor (suc zero) (suc zero) h g = refl
feedback_xor (suc (suc a)) b h g = absurd (omega arith)
feedback_xor a (suc (suc b)) h g = absurd (omega arith)

pub shift_bit_xor : (a b : ℕ) → shift_bit (bit_xor a b) ≡ bit_xor (shift_bit a) (shift_bit b)
shift_bit_xor a b =
    let low : bit_xor a b % 2 ≡ (a % 2 + b % 2) % 2 = omega (arith, xor_low a b) in
    rw
      (
        shift_bit-feedback (bit_xor a b),
        shift_bit-feedback a,
        shift_bit-feedback b,
        xor_half,
        low,
        feedback_xor (a % 2) (b % 2) (omega arith) (omega arith),
      )
      (xor_swap (a / 2) (b / 2) (feedback (a % 2)) (feedback (b % 2)))

-- The division is linear.
pub shift_bits_xor :
    (n a b : ℕ) → shift_bits n (bit_xor a b) ≡ bit_xor (shift_bits n a) (shift_bits n b)
unfolding shift_bits
shift_bits_xor zero a b = refl
shift_bits_xor (suc n) a b = rw shift_bit_xor (shift_bits_xor n (shift_bit a) (shift_bit b))

shift_bit_double : (y : ℕ) → shift_bit (y * 2) ≡ y
shift_bit_double y =
    let e : y * 2 % 2 ≡ 0 = omega arith in
    let d : y * 2 / 2 ≡ y = omega arith in
    rw (shift_bit-feedback, e, d) (unfold feedback in zero_xor y)

pub shift_bits_add : (m n c : ℕ) → shift_bits (m + n) c ≡ shift_bits n (shift_bits m c)
unfolding shift_bits
shift_bits_add zero n c = let e : 0 + n ≡ n = omega arith in rw e refl
shift_bits_add (suc m) n c =
    let e : suc m + n ≡ suc (m + n) = omega arith in rw e (shift_bits_add m n (shift_bit c))

pub shift_bits_shifted : (k y : ℕ) → shift_bits k (y * 2 ^ k) ≡ y
unfolding shift_bits
shift_bits_shifted zero y = omega arith
shift_bits_shifted (suc k) y =
    let e : y * 2 ^ suc k ≡ y * 2 ^ k * 2 = omega (arith, ap (λ (t : ℕ). y * t) (pow-suc 2 k)) in
    rw (e, shift_bit_double) (shift_bits_shifted k y)

pub xor_below : (k a b : ℕ) → a < 2 ^ k → b < 2 ^ k → bit_xor a b < 2 ^ k
xor_below k a b h g =
    let e : bit_xor a b % 2 ^ k ≡ bit_xor a b =
      xor-mod k a b ∙ ap₂ bit_xor (mod-eq_of_lt h) (mod-eq_of_lt g) in
    omega (arith, e, two_pow_le 0 k (omega arith))

shift_bit_below : (c : ℕ) → c < 2 ^ 32 → shift_bit c < 2 ^ 32
unfolding feedback
shift_bit_below c h =
    rw shift_bit-feedback (xor_below 32 (c / 2) (feedback (c % 2)) (omega arith) (low (c % 2)))
  where
    low : (d : ℕ) → feedback d < 2 ^ 32
    low zero = omega arith
    low (suc d) = omega arith

pub shift_bits_below : (n c : ℕ) → c < 2 ^ 32 → shift_bits n c < 2 ^ 32
unfolding shift_bits
shift_bits_below zero c h = h
shift_bits_below (suc n) c h = shift_bits_below n (shift_bit c) (shift_bit_below c h)

pub bitwise-append : (xs ys : List ℕ) (c : ℕ) → bitwise (xs ++ ys) c ≡ bitwise ys (bitwise xs c)
bitwise-append [] ys c = refl
bitwise-append (x ∷ xs) ys c = bitwise-append xs ys (shift_bits 8 (bit_xor c x))

pub bitwise_below : (xs : List ℕ) (c : ℕ) → c < 2 ^ 32 → IsBytes xs → bitwise xs c < 2 ^ 32
bitwise_below [] c h b = h
bitwise_below (x ∷ xs) c h (b, bs) =
    bitwise_below xs _ (shift_bits_below 8 _ (xor_below 32 c x h (omega arith))) bs
