-- ===== src/Bit/View.antt =====
-- The abstract view of bit.rs: a stream is the list of its binary digits, lowest first.
use native.Mathlib.Nat.{pow-suc, div-eq_of_lt, add-mul-div_right, div-one, mod-one}
use noflate.Base.{
  ℕ, zero, suc, ◌+◌, ◌*◌, ◌/◌, ◌%◌, ◌^◌, ◌<◌, ◌≡◌, refl, ap, List, [], ◌∷◌, ◌++◌, append_assoc,
  arith, length,
}
use noflate.Base.Bits.{div-two_pow-suc, mod-two_pow-suc}

-- The `n` low digits of `x`.
abbrev pub bits : ℕ → ℕ → List ℕ
bits zero x = []
bits (suc n) x = (x % 2) ∷ bits n (x / 2)

abbrev pub value : List ℕ → ℕ
value [] = 0
value (b ∷ bs) = b + 2 * value bs

abbrev pub byte_bits : List ℕ → List ℕ
byte_bits [] = []
byte_bits (b ∷ bs) = bits 8 b ++ byte_bits bs

pub length-bits : (n x : ℕ) → length (bits n x) ≡ n
length-bits zero x = refl
length-bits (suc n) x = ap suc (length-bits n (x / 2))

pub length-byte_bits : (bs : List ℕ) → length (byte_bits bs) ≡ 8 * length bs
length-byte_bits [] = refl
length-byte_bits (b ∷ bs) = omega (arith, length-byte_bits bs)

pub value-bits : (n x : ℕ) → value (bits n x) ≡ x % 2 ^ n
value-bits zero x = rw mod-one
value-bits (suc n) x = omega (arith, value-bits n (x / 2), mod-two_pow-suc n x)

pub bits-append : (n m x : ℕ) → bits (n + m) x ≡ bits n x ++ bits m (x / 2 ^ n)
bits-append zero m x = rw div-one (ap (λ k. bits k x) (omega arith))
bits-append (suc n) m x =
    let e : suc n + m ≡ suc (n + m) = omega arith in
    rw (e, div-two_pow-suc) (ap (λ l. (x % 2) ∷ l) (bits-append n m (x / 2)))

-- Digits above the `n`-th do not show.
pub bits-add_high : (n x y : ℕ) → bits n (x + y * 2 ^ n) ≡ bits n x
bits-add_high zero x y = refl
bits-add_high (suc n) x y =
    let e : x + y * 2 ^ suc n ≡ x + y * 2 ^ n * 2 =
      omega (arith, ap (λ (t : ℕ). y * t) (pow-suc 2 n)) in
    let low : (x + y * 2 ^ n * 2) % 2 ≡ x % 2 = omega arith in
    let high : (x + y * 2 ^ n * 2) / 2 ≡ x / 2 + y * 2 ^ n = omega arith in
    rw (e, low, high) (ap (λ l. (x % 2) ∷ l) (bits-add_high n (x / 2) y))

-- A value below and one above, side by side.
pub bits-join : (n m x y : ℕ) → x < 2 ^ n → bits (n + m) (x + y * 2 ^ n) ≡ bits n x ++ bits m y
bits-join n m x y h =
    let e : (x + y * 2 ^ n) / 2 ^ n ≡ y = div_join n x y h in rw (bits-append, bits-add_high, e)
  where
    div_join : (n x y : ℕ) → x < 2 ^ n → (x + y * 2 ^ n) / 2 ^ n ≡ y
    div_join n x y h =
        omega (arith, add-mul-div_right x y {z = 2 ^ n} (omega arith), div-eq_of_lt h)

pub byte_bits-append : (xs ys : List ℕ) → byte_bits (xs ++ ys) ≡ byte_bits xs ++ byte_bits ys
byte_bits-append [] ys = refl
byte_bits-append (x ∷ xs) ys = rw (byte_bits-append xs ys, append_assoc)
