-- ===== src/Bit/Kept.antt =====
-- What the operations of `BitReader` of src/bit.rs keep: the input, and a bound on the buffered bits.
use noflate.Base.{
  ℕ, zero, suc, ◌+◌, ◌-◌, ◌≤◌, ◌<◌, ◌≡◌, refl, sym, max, inl, inr, Option-cases, get_elem?, arith,
  length, u16, bit_and, ◌^◌, lt→ltb, le→ltb_false, le→ltb_false,
}
use native.Mathlib.Decide.{dec_lt}
use mathlib.Core.Path.{subst}
use noflate.Error.{Result, ok, err, panic, out_of_fuel}
use noflate.Exec.{and_then, gets}
use noflate.Bit.Reader.{Reader, fill, load, peek_bits, read_bits, shift_out}
use noflate.Bit.Reads.{IsValid, stream}
use noflate.Bit.Refine.{peek_bits-IsPeeked, skip_bits_enough}

-- A reader after reads that load no byte that they do not need: at most `most` bits are buffered.
pub record IsKept (most : ℕ) (r r' : Reader) : Type 0 where
  pub input : r'.input ≡ r.input
  pub few : r'.bit_count ≤ max r.bit_count most

fill-IsKept : (fuel n : ℕ) (r : Reader) → IsKept (n + 7) r (fill fuel n r).1
unfolding fill
fill-IsKept zero n r = record { input = refl; few = omega arith }
fill-IsKept (suc fuel) n r = elim (dec_lt r.bit_count n) [
  | no enough ↦
      rw (le→ltb_false r.bit_count n (omega arith)) (record { input = refl; few = omega arith })
  | yes short ↦ elim (Option-cases (get_elem? r.input r.byte_index)) [
    | inl nothing ↦
        rw (lt→ltb r.bit_count n short, nothing) (record { input = refl; few = omega arith })
    | inr (next, there) ↦
        let rest = fill-IsKept fuel n (load next r) in
        rw (lt→ltb r.bit_count n short, there)
          (loaded r (fill fuel n (load next r)).1 next short rest)
  ]
]
  where
    loaded :
        (r r' : Reader) (next : ℕ)
        → r.bit_count < n
        → IsKept (n + 7) (load next r) r'
        → IsKept (n + 7) r r'
    loaded r r' next short k = unfold load in record { input = k.input; few = omega (arith, k.few) }

gets_state :
    (x : Result (Unit {0})) (g : Reader → ℕ) (r : Reader) → (and_then x r (λ _. gets g)).1 ≡ r
gets_state (ok a) g r = refl
gets_state (err e) g r = refl
gets_state panic g r = refl
gets_state out_of_fuel g r = refl

pub peek_bits-IsKept : (n : ℕ) (r : Reader) → IsKept (n + 7) r (peek_bits n r).1
unfolding peek_bits
peek_bits-IsKept n r =
    subst (IsKept (n + 7) r)
      (sym (gets_state (fill n n r).0 (λ r. u16 (bit_and r.bit_buffer (2 ^ n - 1))) (fill n n r).1))
      (fill-IsKept n n r)

-- Behind a read of `n` bits.
pub read_bits-IsKept :
    (n : ℕ) (r : Reader)
    → IsValid r
    → n ≤ 16
    → n ≤ length (stream r)
    → ((read_bits n r).1.input ≡ r.input)
      × ((read_bits n r).1.bit_count + n ≤ max r.bit_count (n + 7))
unfolding read_bits shift_out
read_bits-IsKept n r v small there =
    let p = peek_bits-IsPeeked n r v small there in
    let k = peek_bits-IsKept n r in
    rw (p.returns, skip_bits_enough n (peek_bits n r).1 p.enough)
      (k.input, omega (arith, k.few, p.enough))
