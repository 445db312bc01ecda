-- ===== src/Base/Bits.antt =====
-- Laws of the binary operations at variables: one digit at a time, from the recursion on digits
-- that the native operations stand for.
use Prim.Native.Nat.{ℕ, zero, suc, ◌+◌, ◌*◌, ◌/◌, ◌%◌, ◌^◌, ◌≤◌, ◌<◌, ◌-◌, min, max, differ}
use Prim.Native.Nat.{bit_and, bit_or, bit_xor, digits, bit_and-bitwise, bit_or-bitwise}
use Prim.Native.Nat.{bit_xor-bitwise}
use mathlib.Core.Path.{◌≡◌, refl, sym, ap, ◌∙◌}
use native.Mathlib.Nat.{pow-suc, one-le-pow, div-div-eq-div-mul, mod-eq-sub-div-mul}
use native.Mathlib.Nat.{div-mul-le_self, div-one, mod-one, add-zero, pow-le-pow_right}
use native.Mathlib.Decide.{ℕ_discrete}
use native.Mathlib.Omega.{arith}

module _ (z : ℕ → ℕ) (f : ℕ → ℕ → ℕ) where
  one_more : (k a b : ℕ) → a ≤ k → digits z f (suc k) a b ≡ digits z f k a b
  one_more zero zero b h = refl
  one_more zero (suc a) b h = absurd (omega arith)
  one_more (suc k) zero b h = refl
  one_more (suc k) (suc a) b h = rw (one_more k (suc a / 2) (b / 2) (omega arith))

  -- The count of digits does not matter once it reaches the first number.
  enough : (k a b : ℕ) → a ≤ k → digits z f k a b ≡ digits z f a a b
  enough zero zero b h = refl
  enough zero (suc a) b h = absurd (omega arith)
  enough (suc k) a b h = elim (ℕ_discrete a (suc k)) [
    | yes e ↦ rw e
    | no ne ↦ one_more k a b (omega arith) ∙ enough k a b (omega arith)
  ]

pub or_step : (a b : ℕ) → bit_or a b ≡ bit_or (a / 2) (b / 2) * 2 + max (a % 2) (b % 2)
or_step zero b = simp bit_or-bitwise (omega arith)
or_step (suc a) b =
    simp bit_or-bitwise (omega (arith, enough (λ y. y) max a (suc a / 2) (b / 2) (omega arith)))

pub and_step : (a b : ℕ) → bit_and a b ≡ bit_and (a / 2) (b / 2) * 2 + min (a % 2) (b % 2)
and_step zero b = simp bit_and-bitwise (omega arith)
and_step (suc a) b =
    simp bit_and-bitwise (omega (arith, enough (λ y. 0) min a (suc a / 2) (b / 2) (omega arith)))

differ_bits : (x y : ℕ) → x < 2 → y < 2 → differ x y ≡ (x + y) % 2
differ_bits zero y h g = omega arith
differ_bits (suc zero) zero h g = refl
differ_bits (suc zero) (suc zero) h g = refl
differ_bits (suc zero) (suc (suc y)) h g = absurd (omega arith)
differ_bits (suc (suc x)) y h g = absurd (omega arith)

pub xor_step : (a b : ℕ) → bit_xor a b ≡ bit_xor (a / 2) (b / 2) * 2 + (a + b) % 2
xor_step zero b = simp bit_xor-bitwise (omega arith)
xor_step (suc a) b = simp bit_xor-bitwise (
    omega (
      arith,
      enough (λ y. y) differ a (suc a / 2) (b / 2) (omega arith),
      differ_bits (suc a % 2) (b % 2) (omega arith) (omega arith),
    ))

-- `x | (y << k)` is a sum when `x` fits the `k` bits below.
pub or_shifted : (k x y : ℕ) → x < 2 ^ k → bit_or x (y * 2 ^ k) ≡ x + y * 2 ^ k
or_shifted zero x y h = ground (arith, or_zero y)
  where
    or_zero : (y : ℕ) → bit_or 0 y ≡ y
    or_zero y = bit_or-bitwise 0 y
or_shifted (suc k) x y h = ground (
  arith,
  or_step x (y * 2 ^ suc k),
  ap (λ (t : ℕ). y * t) (pow-suc 2 k),
  pow-suc 2 k,
  or_shifted k (x / 2) y (omega (arith, pow-suc 2 k)),
)

or_comm_fuel : (n a b : ℕ) → a ≤ n → b ≤ n → bit_or a b ≡ bit_or b a
or_comm_fuel zero zero zero h g = refl
or_comm_fuel zero (suc a) b h g = absurd (omega arith)
or_comm_fuel zero zero (suc b) h g = absurd (omega arith)
or_comm_fuel (suc n) a b h g =
    omega
      (arith, or_step a b, or_step b a, or_comm_fuel n (a / 2) (b / 2) (omega arith) (omega arith))

pub or_comm : (a b : ℕ) → bit_or a b ≡ bit_or b a
or_comm a b = or_comm_fuel (a + b) a b (omega arith) (omega arith)

and_zero : (n a : ℕ) → a ≤ n → bit_and a 0 ≡ 0
and_zero zero zero h = refl
and_zero zero (suc a) h = absurd (omega arith)
and_zero (suc n) a h = elim (ℕ_discrete a 0) [
  | yes e ↦ rw e
  | no ne ↦ omega (arith, and_step a 0, and_zero n (a / 2) (omega arith))
]

pub mod-two_pow-suc : (k a : ℕ) → a % 2 ^ suc k ≡ a / 2 % 2 ^ k * 2 + a % 2
mod-two_pow-suc k a =
    let e : a / 2 / 2 ^ k ≡ a / 2 ^ suc k =
      div-div-eq-div-mul a 2 (2 ^ k) ∙ ap (λ (t : ℕ). a / t) (omega (arith, pow-suc 2 k)) in
    omega (
      arith,
      mod-eq-sub-div-mul a (2 ^ suc k),
      mod-eq-sub-div-mul (a / 2) (2 ^ k),
      div-mul-le_self a (2 ^ suc k),
      div-mul-le_self (a / 2) (2 ^ k),
      ap (λ (t : ℕ). a / 2 ^ suc k * t) (pow-suc 2 k),
      ap (λ (t : ℕ). t * 2 ^ k) e,
    )

-- `a & ((1 << k) - 1)` is the remainder by `2 ^ k`.
pub and_mask : (k a : ℕ) → bit_and a (2 ^ k - 1) ≡ a % 2 ^ k
and_mask zero a = omega (arith, and_zero a a (omega arith))
and_mask (suc k) a = ground (
  arith,
  and_step a (2 ^ suc k - 1),
  pow-suc 2 k,
  one-le-pow k 2,
  and_mask k (a / 2),
  mod-two_pow-suc k a,
)

pub xor_zero : (b : ℕ) → bit_xor 0 b ≡ b
xor_zero b = bit_xor-bitwise 0 b

pub xor_half : (a b : ℕ) → bit_xor a b / 2 ≡ bit_xor (a / 2) (b / 2)
xor_half a b = omega (arith, xor_step a b)

pub xor_low : (a b : ℕ) → bit_xor a b % 2 ≡ (a + b) % 2
xor_low a b = omega (arith, xor_step a b)

xor_comm_fuel : (n a b : ℕ) → a ≤ n → b ≤ n → bit_xor a b ≡ bit_xor b a
xor_comm_fuel zero zero zero h g = refl
xor_comm_fuel zero (suc a) b h g = absurd (omega arith)
xor_comm_fuel zero zero (suc b) h g = absurd (omega arith)
xor_comm_fuel (suc n) a b h g =
    omega (
      arith,
      xor_step a b,
      xor_step b a,
      xor_comm_fuel n (a / 2) (b / 2) (omega arith) (omega arith),
    )

pub xor_comm : (a b : ℕ) → bit_xor a b ≡ bit_xor b a
xor_comm a b = xor_comm_fuel (a + b) a b (omega arith) (omega arith)

xor_assoc_fuel :
    (n a b c : ℕ) → a ≤ n → b ≤ n → c ≤ n → bit_xor (bit_xor a b) c ≡ bit_xor a (bit_xor b c)
xor_assoc_fuel zero zero b c h g l = rw (xor_zero b, xor_zero (bit_xor b c))
xor_assoc_fuel zero (suc a) b c h g l = absurd (omega arith)
xor_assoc_fuel (suc n) a b c h g l = ground (
  arith,
  xor_step (bit_xor a b) c,
  xor_step a (bit_xor b c),
  xor_half a b,
  xor_half b c,
  xor_low a b,
  xor_low b c,
  xor_assoc_fuel n (a / 2) (b / 2) (c / 2) (omega arith) (omega arith) (omega arith),
)

pub xor_assoc : (a b c : ℕ) → bit_xor (bit_xor a b) c ≡ bit_xor a (bit_xor b c)
xor_assoc a b c = xor_assoc_fuel (a + b + c) a b c (omega arith) (omega arith) (omega arith)

xor_self_fuel : (n a : ℕ) → a ≤ n → bit_xor a a ≡ 0
xor_self_fuel zero zero h = refl
xor_self_fuel zero (suc a) h = absurd (omega arith)
xor_self_fuel (suc n) a h = omega (arith, xor_step a a, xor_self_fuel n (a / 2) (omega arith))

pub xor_self : (a : ℕ) → bit_xor a a ≡ 0
xor_self a = xor_self_fuel a a (omega arith)

pub zero_xor : (a : ℕ) → bit_xor a 0 ≡ a
zero_xor a = xor_comm a 0 ∙ xor_zero a

pub div-two_pow-suc : (k a : ℕ) → a / 2 ^ suc k ≡ a / 2 / 2 ^ k
div-two_pow-suc k a =
    sym (div-div-eq-div-mul a 2 (2 ^ k) ∙ ap (λ (t : ℕ). a / t) (omega (arith, pow-suc 2 k)))

pub xor-shr : (k a b : ℕ) → bit_xor a b / 2 ^ k ≡ bit_xor (a / 2 ^ k) (b / 2 ^ k)
xor-shr zero a b = simp div-one
xor-shr (suc k) a b = simp div-two_pow-suc (rw xor_half (xor-shr k (a / 2) (b / 2)))

pub xor-mod : (k a b : ℕ) → bit_xor a b % 2 ^ k ≡ bit_xor (a % 2 ^ k) (b % 2 ^ k)
xor-mod zero a b = simp mod-one
xor-mod (suc k) a b = ground (
  arith,
  mod-two_pow-suc k (bit_xor a b),
  mod-two_pow-suc k a,
  mod-two_pow-suc k b,
  xor_half a b,
  xor_low a b,
  xor-mod k (a / 2) (b / 2),
  xor_step (a % 2 ^ suc k) (b % 2 ^ suc k),
)

pub two_pow_add : (n k : ℕ) → 2 ^ (n + k) ≡ 2 ^ n * 2 ^ k
two_pow_add n zero = omega (arith, ap (λ (t : ℕ). 2 ^ t) (add-zero n))
two_pow_add n (suc k) =
    let e : n + suc k ≡ suc (n + k) = omega arith in
    rw e (
      omega (
        arith,
        pow-suc 2 (n + k),
        pow-suc 2 k,
        two_pow_add n k,
        ap (λ (t : ℕ). 2 ^ n * t) (pow-suc 2 k),
      ))

pub two_pow_le : (n k : ℕ) → n ≤ k → 2 ^ n ≤ 2 ^ k
two_pow_le n k h = pow-le-pow_right (omega arith) h
