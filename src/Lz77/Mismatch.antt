-- ===== src/Lz77/Mismatch.antt =====
-- The lowest byte in which two words differ, by the trailing zeros of their difference, as
-- src/lz77.rs finds it.
use native.Mathlib.Nat.{pow-suc, mod-one}
use native.Mathlib.Decide.{ℕ_discrete}
use noflate.Base.{
  ℕ, zero, suc, ◌+◌, ◌*◌, ◌/◌, ◌%◌, ◌^◌, ◌≤◌, ◌<◌, ◌≡◌, ◌≢◌, refl, sym, ap, ap₂, ◌∙◌, arith, ◌==◌,
  if◌then◌else◌, bit_xor, false,
}
use noflate.Base.Bits.{xor_zero, zero_xor, xor_assoc, xor_self, xor-shr, xor-mod, mod-two_pow-suc}
use noflate.Lz77.Prefix.{trailing_zeros}

pub xor_equal : (x y : ℕ) → bit_xor x y ≡ 0 → x ≡ y
xor_equal x y h =
    sym (zero_xor x)
    ∙ ap (bit_xor x) (sym (xor_self y))
    ∙ sym (xor_assoc x y y)
    ∙ ap (λ t. bit_xor t y) h
    ∙ xor_zero y

pub trailing_zeros_low : (j m d : ℕ) → j ≤ m → d % 2 ^ j ≢ 0 → trailing_zeros m d < j
unfolding trailing_zeros
trailing_zeros_low zero m d h low = absurd (low (rw mod-one))
trailing_zeros_low (suc j) zero d h low = absurd (omega arith)
trailing_zeros_low (suc j) (suc m) d h low = elim (ℕ_discrete (d % 2) 0) [
  | yes even ↦
      let more =
        trailing_zeros_low j m (d / 2) (omega arith)
          (λ z. low (omega (arith, mod-two_pow-suc j d))) in
      rw even (omega arith)
  | no odd ↦ ground arith
]

pub trailing_zeros_double : (m d : ℕ) → trailing_zeros (suc m) (d * 2) ≡ 1 + trailing_zeros m d
unfolding trailing_zeros
trailing_zeros_double m d =
    let even : d * 2 % 2 ≡ 0 = omega arith in
    let half : d * 2 / 2 ≡ d = omega arith in rw (even, half)

pub trailing_zeros_shifted :
    (k m d : ℕ) → trailing_zeros (k + m) (d * 2 ^ k) ≡ k + trailing_zeros m d
trailing_zeros_shifted zero m d =
    let e : 0 + m ≡ m = omega arith in
    let f : d * 2 ^ 0 ≡ d = omega arith in rw (e, f) (omega arith)
trailing_zeros_shifted (suc k) m d =
    let e : suc k + m ≡ suc (k + m) = omega arith in
    let f : d * 2 ^ suc k ≡ d * 2 ^ k * 2 = omega (arith, ap (λ (t : ℕ). d * t) (pow-suc 2 k)) in
    rw (e, f, trailing_zeros_double (k + m) (d * 2 ^ k), trailing_zeros_shifted k m d) (omega arith)

-- The exclusive or of two words, its low byte first.
pub xor_words :
    (x y p q : ℕ)
    → x < 256
    → y < 256
    → bit_xor (x + 256 * p) (y + 256 * q) ≡ bit_xor x y + bit_xor p q * 256
xor_words x y p q h g =
    let px : (x + 256 * p) / 2 ^ 8 ≡ p = omega arith in
    let qy : (y + 256 * q) / 2 ^ 8 ≡ q = omega arith in
    let lx : (x + 256 * p) % 2 ^ 8 ≡ x = omega arith in
    let ly : (y + 256 * q) % 2 ^ 8 ≡ y = omega arith in
    omega (
      arith,
      xor-shr 8 (x + 256 * p) (y + 256 * q) ∙ ap₂ bit_xor px qy,
      xor-mod 8 (x + 256 * p) (y + 256 * q) ∙ ap₂ bit_xor lx ly,
    )

pub xor_byte : (x y : ℕ) → x < 256 → y < 256 → bit_xor x y < 256
xor_byte x y h g =
    let lx : x % 2 ^ 8 ≡ x = omega arith in
    let ly : y % 2 ^ 8 ≡ y = omega arith in omega (arith, xor-mod 8 x y ∙ ap₂ bit_xor lx ly)

pub pick :
    (d more stop target : ℕ)
    → (d ≡ 0 → more ≡ target)
    → (d ≢ 0 → stop ≡ target)
    → (if d == 0 then more else stop) ≡ target
pick zero more stop target same other = same refl
pick (suc d) more stop target same other =
    let e : (suc d == 0) ≡ false = ground arith in rw e (other (λ z. absurd (omega (arith, z))))
