-- ===== src/Huffman/Decoder/Outcome.antt =====
-- `HuffmanDecoder::decode` of src/huffman.rs always returns.
use native.Mathlib.Decide.{dec_le}
use native.Mathlib.Nat.{mod-lt}
use noflate.Base.{
  ℕ, zero, suc, ◌+◌, ◌%◌, ◌^◌, ◌≤◌, ◌<◌, ◌≡◌, ◌⊎◌, inl, inr, refl, sym, ap, ◌∙◌, not, ◌&&◌, ◌||◌,
  Bool-cases, Option, some, List, arith, length, take, get_elem?, leb, ltb, ◌==◌, bit_and, [], ◌∷◌,
}
use noflate.Base.Bits.{two_pow_le}
use noflate.Error.{Result, ok, err, invalid_data, invalid_coded_stream}
use noflate.Exec.{Exec}
use noflate.Bit.View.{value, value-bits}
use noflate.Bit.Reader.{Reader, eof, peek_bits}
use noflate.Bit.Reads.{stream, IsValid}
use noflate.Bit.Refine.{IsPeeked, peek_bits-IsPeeked, peek_bits-eof, take-stream, skip_bits_enough}
use noflate.Huffman.Decoder.{
  HuffmanDecoder, vacant, use_slot, decode_loop, decode, from_code_lengths,
}
use noflate.Huffman.Decoder.Table.{IsTable, from_code_lengths-IsTable}

-- A symbol, a lack of bits, or a pattern that is no code.
abbrev pub IsOutcome : Result ℕ → Type 0
IsOutcome x =
    ((symbol : ℕ) × (x ≡ ok symbol))
    ⊎ ((x ≡ err eof) ⊎ (x ≡ err (invalid_data invalid_coded_stream)))

slot_there : (table : List ℕ) (i : ℕ) → i < length table → (v : ℕ) × (get_elem? table i ≡ some v)
slot_there [] i h = absurd (omega arith)
slot_there (x ∷ xs) zero h = (x, refl)
slot_there (x ∷ xs) (suc i) h = slot_there xs i (omega arith)

pub peeked_small :
    (n : ℕ) (r : Reader) (out : Result ℕ × Reader)
    → IsPeeked n r out
    → value (take n (stream r)) < 2 ^ n
peeked_small n r out p =
    let e : value (take n (stream r)) ≡ out.1.bit_buffer % 2 ^ n =
      ap (λ l. value (take n l)) (sym p.same_stream)
      ∙ ap value (take-stream n p.valid p.enough)
      ∙ value-bits n out.1.bit_buffer in
    rw e (mod-lt out.1.bit_buffer (omega (arith, two_pow_le 0 n (omega arith))))

-- What a slot leads to: a symbol, an error, or a longer look.
use_slot-IsOutcome :
    (d : HuffmanDecoder) (peeked v : ℕ) (again : ℕ → Exec Reader ℕ) (r : Reader)
    → peeked ≤ r.bit_count
    → ((width : ℕ) → peeked < width → width ≤ d.max_bits → IsOutcome (again width r).0)
    → IsOutcome (use_slot d peeked again (some v) r).0
unfolding use_slot
use_slot-IsOutcome d peeked v again r enough longer =
    let width = bit_and v 31 in
    elim (Bool-cases (leb width peeked && not (v == vacant))) [
      | inl found ↦ rw (found, skip_bits_enough width r (ground (arith, found))) (inl (_, refl))
      | inr other ↦ elim (Bool-cases (ltb d.max_bits width || (v == vacant))) [
        | inl wrong ↦ rw (other, wrong) (inr (inr refl))
        | inr long ↦
            rw (other, long)
              (longer width (ground (arith, other, long)) (ground (arith, other, long)))
      ]
    ]

decode_loop-IsOutcome :
    (fuel : ℕ) (d : HuffmanDecoder) (peeked : ℕ) (r : Reader)
    → IsTable d
    → IsValid r
    → peeked ≤ d.max_bits
    → 16 ≤ peeked + fuel
    → IsOutcome (decode_loop fuel d peeked r).0
decode_loop-IsOutcome zero d peeked r t v in_table enough = absurd (omega (arith, t.widest))
decode_loop-IsOutcome (suc fuel) d peeked r t v in_table enough =
    elim (dec_le peeked (length (stream r))) [
      | no short ↦
          unfold decode_loop in
          rw (peek_bits-eof peeked r v (omega (arith, t.widest)) (omega arith)) (inr (inl refl))
      | yes there ↦
          let p = peek_bits-IsPeeked peeked r v (omega (arith, t.widest)) there in
          let (slot, found) = slot_there d.table (value (take peeked (stream r))) (
            omega (
              arith,
              t.size,
              peeked_small peeked r (peek_bits peeked r) p,
              two_pow_le peeked d.max_bits in_table,
            )) in
          let next =
            use_slot-IsOutcome d peeked slot (decode_loop fuel d) (peek_bits peeked r).1 p.enough
              (λ width more inside.
                decode_loop-IsOutcome fuel d width (peek_bits peeked r).1 t p.valid inside
                  (omega arith)) in
          round fuel d peeked r p.returns found next
    ]
  where
    round :
        (fuel : ℕ) (d : HuffmanDecoder) (peeked : ℕ) (r : Reader) {i slot : ℕ}
        → (peek_bits peeked r).0 ≡ ok i
        → get_elem? d.table i ≡ some slot
        → IsOutcome (use_slot d peeked (decode_loop fuel d) (some slot) (peek_bits peeked r).1).0
        → IsOutcome (decode_loop (suc fuel) d peeked r).0
    round fuel d peeked r looked found next = unfold decode_loop in rw (looked, found) next

-- On a valid reader, a decoder built from code lengths gives a symbol, or the error for a lack of
-- bits, or the one for a pattern that is no code: its loop ends, and it reads no slot out of the table.
pub decode-IsOutcome :
    (lengths : List ℕ) (safely eob : Option ℕ) (d : HuffmanDecoder) (r : Reader)
    → from_code_lengths lengths safely eob ≡ ok d
    → IsValid r
    → IsOutcome (decode d r).0
unfolding decode
decode-IsOutcome lengths safely eob d r built v =
    let t = from_code_lengths-IsTable lengths safely eob d built in
    decode_loop-IsOutcome 16 d d.safely_peek_bits r t v t.safely (omega arith)
