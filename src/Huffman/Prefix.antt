-- ===== src/Huffman/Prefix.antt =====
-- The numbers that src/huffman.rs looks up: the first digits of a code, and of what stands behind it.
use native.Mathlib.Nat.{
  pow-suc, mod-one, mod-eq-sub-div-mul, div-mul-le_self, mod-eq_of_lt, mod-mod,
  add-mul-mod_self_right,
}
use noflate.Base.{
  ℕ, zero, suc, ◌+◌, ◌-◌, ◌*◌, ◌/◌, ◌%◌, ◌^◌, ◌≤◌, ◌<◌, ◌≡◌, sym, ap, ◌∙◌, List, ◌++◌, take,
  take-append_le, arith,
}
use noflate.Base.Bits.{two_pow_add, mod-two_pow-suc}
use noflate.Bit.View.{bits, value, value-bits, length-bits}
use noflate.Bit.Refine.{take-bits}

-- The digits of a code in a longer look.
value_longer :
    (w k code : ℕ) (rest : List ℕ)
    → value (take (w + k) (bits w code ++ rest)) ≡ code % 2 ^ w + value (take k rest) * 2 ^ w
value_longer zero k code rest = let e : 0 + k ≡ k = omega arith in rw (e, mod-one) (omega arith)
value_longer (suc w) k code rest =
    let e : suc w + k ≡ suc (w + k) = omega arith in
    rw e (
      omega (
        arith,
        value_longer w k (code / 2) rest,
        mod-two_pow-suc w code,
        ap (λ (t : ℕ). value (take k rest) * t) (pow-suc 2 w),
      ))

pub mod_power : (w p code : ℕ) → w ≤ p → code % 2 ^ p % 2 ^ w ≡ code % 2 ^ w
mod_power w p code h =
    let e : 2 ^ (p - w) * 2 ^ w ≡ 2 ^ p =
      sym (two_pow_add (p - w) w) ∙ ap (λ (k : ℕ). 2 ^ k) (omega arith) in
    let split : code ≡ code % 2 ^ p + code / 2 ^ p * 2 ^ (p - w) * 2 ^ w = omega (
      arith,
      mod-eq-sub-div-mul code (2 ^ p),
      div-mul-le_self code (2 ^ p),
      assoc (code / 2 ^ p) (2 ^ (p - w)) (2 ^ w),
      ap (λ (t : ℕ). code / 2 ^ p * t) e,
    ) in
    sym (
      ap (λ (t : ℕ). t % 2 ^ w) split
      ∙ add-mul-mod_self_right (code % 2 ^ p) (code / 2 ^ p * 2 ^ (p - w)) (2 ^ w))
  where
    assoc : (a b c : ℕ) → a * b * c ≡ a * (b * c)
    assoc a b c = grind arith

-- The slot that a look at no more than the code gives, and the one that a longer look gives.
pub value_shorter :
    (p w code : ℕ) (rest : List ℕ) → p ≤ w → value (take p (bits w code ++ rest)) ≡ code % 2 ^ p
value_shorter p w code rest h =
    ap value (
      take-append_le p (bits w code) rest (omega (arith, length-bits w code))
      ∙ take-bits p w code h)
    ∙ value-bits p code

pub long_look :
    (w p code : ℕ) (rest : List ℕ)
    → w ≤ p
    → code < 2 ^ w
    → value (take p (bits w code ++ rest)) % 2 ^ w ≡ code
long_look w p code rest h fits =
    let e : p ≡ w + (p - w) = omega arith in
    ap (λ k. value (take k (bits w code ++ rest)) % 2 ^ w) e
    ∙ ap (λ (t : ℕ). t % 2 ^ w) (value_longer w (p - w) code rest)
    ∙ add-mul-mod_self_right (code % 2 ^ w) (value (take (p - w) rest)) (2 ^ w)
    ∙ mod-mod code (2 ^ w)
    ∙ mod-eq_of_lt fits
