-- ===== src/Huffman/Looks.antt =====
-- `HuffmanDecoder::decode` of src/huffman.rs: its looks at the digits of a code.
use native.Mathlib.Nat.{mod-eq_of_lt}
use native.Mathlib.Decide.{dec_le, dec_lt}
use noflate.Base.{
  ℕ, zero, suc, max, ◌+◌, ◌*◌, ◌%◌, ◌^◌, ◌≤◌, ◌<◌, ◌≡◌, refl, sym, ap, ◌∙◌, not, ◌&&◌, ◌||◌, some,
  List, ◌++◌, length, length-append, take, drop, drop-append_self, get_elem?, arith, leb, ltb, ◌==◌,
  ◌>>>◌, bit_and, true, false,
}
use noflate.Base.Bits.{two_pow_le, and_mask}
use noflate.Error.{Result, ok}
use noflate.Exec.{Exec}
use noflate.Bit.View.{bits, value, length-bits}
use noflate.Bit.Reader.{Reader, peek_bits, shift_out}
use noflate.Bit.Reads.{stream, IsValid}
use noflate.Bit.Refine.{peek_bits-IsPeeked, skip_bits_enough, stream-shift_out, shift_out-IsValid}
use noflate.Bit.Kept.{IsKept, peek_bits-IsKept}
use noflate.Huffman.Decoder.Outcome.{peeked_small}
use noflate.Huffman.Decoder.{HuffmanDecoder, vacant, use_slot, decode_loop}
use noflate.Huffman.Decoder.Canonical.{Slot, HasCode}
use noflate.Huffman.Prefix.{value_shorter, long_look, mod_power}

-- What a call that decodes a symbol gives: the symbol, and the stream behind its code.
pub record IsDecoded (symbol : ℕ) (behind : List ℕ) (out : Result ℕ × Reader) : Type 0 where
  pub returns : out.0 ≡ ok symbol
  pub rest : stream out.1 ≡ behind
  pub valid : IsValid out.1

-- With it, the input as it was, and no byte loaded that the looks did not need.
pub record IsLoaded (looks width symbol : ℕ) (behind : List ℕ) (r : Reader)
    (out : Result ℕ × Reader) : Type 0 where
  pub decoded : IsDecoded symbol behind out
  pub input : out.1.input ≡ r.input
  pub few : out.1.bit_count + width ≤ max r.bit_count (max looks width + 7)

-- A slot with the symbol's entry, for a look of at least its width.
use_slot_found :
    (d : HuffmanDecoder) (peeked w s : ℕ) (again : ℕ → Exec Reader ℕ) (r : Reader) {behind : List ℕ}
    → IsValid r
    → peeked ≤ r.bit_count
    → w ≤ peeked
    → w ≤ 15
    → s < 2048
    → drop w (stream r) ≡ behind
    → IsLoaded peeked w s behind r (use_slot d peeked again (some (w + s * 32)) r)
unfolding use_slot shift_out
use_slot_found d peeked w s again r v enough inside narrow low rest =
    let width : bit_and (w + s * 32) 31 ≡ w = and_mask 5 (w + s * 32) ∙ omega arith in
    let symbol : (w + s * 32) >>> 5 ≡ s = omega arith in
    let found : (leb w peeked && not (w + s * 32 == vacant)) ≡ true = ground arith in
    rw (width, found, skip_bits_enough w r (omega arith))
      (record {
        decoded = record {
          returns = ap ok symbol;
          rest = stream-shift_out w v (omega arith) ∙ rest;
          valid = shift_out-IsValid w v (omega arith);
        };
        input = refl;
        few = omega arith;
      })

-- The looks before.
IsLoaded-look :
    {peeked looks w s : ℕ} {behind : List ℕ} {r r' : Reader} {out : Result ℕ × Reader}
    → looks ≤ max peeked w
    → IsKept (peeked + 7) r r'
    → IsLoaded looks w s behind r' out
    → IsLoaded peeked w s behind r out
IsLoaded-look h k l = record {
  decoded = l.decoded;
  input = l.input ∙ k.input;
  few = omega (arith, l.few, k.few);
}

-- A slot of a longer code, for a look that is too short.
use_slot_longer :
    (d : HuffmanDecoder) (peeked entry : ℕ) (again : ℕ → Exec Reader ℕ) (r : Reader)
    → peeked < entry % 32
    → entry % 32 ≤ d.max_bits
    → ¬ (entry ≡ vacant)
    → use_slot d peeked again (some entry) r ≡ again (entry % 32) r
unfolding use_slot
use_slot_longer d peeked entry again r short inside filled =
    let width : bit_and entry 31 ≡ entry % 32 = and_mask 5 entry in
    let other : (leb (entry % 32) peeked && not (entry == vacant)) ≡ false = ground arith in
    let right : (ltb d.max_bits (entry % 32) || (entry == vacant)) ≡ false = ground arith in
    rw (width, other, right) refl

-- The slot for a look that is shorter than the code is one of a code longer than the look: a code
-- no longer than it would have the slots of this one too.
prefix_longer :
    {table : List ℕ} {widest w code s p : ℕ}
    → w ≤ 15
    → p < w
    → HasCode table widest w code s
    → (slot : Slot table widest w (code % 2 ^ p)) → p < slot.entry % 32
prefix_longer {table} {widest} {w} {code} {s} {p} narrow short h slot =
    elim (dec_lt p (slot.entry % 32)) [
      | yes longer ↦ longer
      | no within ↦
          let inside : code < 2 ^ widest = omega (arith, h.fits, two_pow_le w widest h.inside) in
          let both : slot.entry ≡ w + s * 32 = some_inj (
            sym (slot.whole code inside (sym (mod_power (slot.entry % 32) p code (omega arith))))
            ∙ h.own code inside (mod-eq_of_lt h.fits)) in
          absurd (omega arith)
    ]
  where
    some_inj : {a b : ℕ} → some a ≡ some b → a ≡ b
    some_inj e = cc

decode_loop_round :
    (fuel : ℕ) (d : HuffmanDecoder) (peeked : ℕ) (r : Reader) {i entry : ℕ}
    → (peek_bits peeked r).0 ≡ ok i
    → get_elem? d.table i ≡ some entry
    → decode_loop (suc fuel) d peeked r
      ≡ use_slot d peeked (decode_loop fuel d) (some entry) (peek_bits peeked r).1
unfolding decode_loop
decode_loop_round fuel d peeked r looked found = rw (looked, found) refl

module _ (d : HuffmanDecoder) (w code s : ℕ) (behind : List ℕ) (narrow : d.max_bits ≤ 15)
    (low : s < 2048) (h : HasCode d.table d.max_bits w code s) where
  pub decode_loop-IsLoaded :
      (fuel peeked : ℕ) (r : Reader)
      → IsValid r
      → stream r ≡ bits w code ++ behind
      → peeked ≤ d.max_bits
      → peeked ≤ length (stream r)
      → 16 ≤ peeked + fuel
      → IsLoaded peeked w s behind r (decode_loop fuel d peeked r)
  decode_loop-IsLoaded zero peeked r v at in_table there enough = absurd (omega arith)
  decode_loop-IsLoaded (suc fuel) peeked r v at in_table there enough =
      let p = peek_bits-IsPeeked peeked r v (omega arith) there in
      let r' = (peek_bits peeked r).1 in
      let looked = peek_bits-IsKept peeked r in
      let same : stream r' ≡ bits w code ++ behind = p.same_stream ∙ at in
      let index : value (take peeked (stream r)) ≡ value (take peeked (bits w code ++ behind)) =
        ap (λ l. value (take peeked l)) at in
      let inside = h.inside in
      elim (dec_le w peeked) [
        | yes long ↦
            let found : get_elem? d.table (value (take peeked (stream r))) ≡ some (w + s * 32) =
              h.own (value (take peeked (stream r)))
                (omega (
                  arith,
                  peeked_small peeked r (peek_bits peeked r) p,
                  two_pow_le peeked d.max_bits in_table,
                ))
                (ap (λ (t : ℕ). t % 2 ^ w) index ∙ long_look w peeked code behind long h.fits) in
            rw (decode_loop_round fuel d peeked r p.returns found) (
              IsLoaded-look (omega arith) looked (
                use_slot_found d peeked w s (decode_loop fuel d) r' p.valid p.enough long
                  (omega arith) low
                  (ap (drop w) same
                    ∙ ap (λ k. drop k (bits w code ++ behind)) (sym (length-bits w code))
                    ∙ drop-append_self (bits w code) behind)))
        | no short ↦
            let slot = h.prefixes peeked (omega arith) in
            let longer = prefix_longer (omega arith) (omega arith) h slot in
            let found : get_elem? d.table (value (take peeked (stream r))) ≡ some slot.entry =
              ap (get_elem? d.table) (index ∙ value_shorter peeked w code behind (omega arith))
              ∙ slot.there in
            let all = ap length same ∙ length-append {0} (bits w code) behind in
            rw
              (
                decode_loop_round fuel d peeked r p.returns found,
                use_slot_longer d peeked slot.entry (decode_loop fuel d) r' longer
                    (omega (arith, slot.short)) slot.filled,
              )
              (IsLoaded-look (omega (arith, slot.short)) looked (
                decode_loop-IsLoaded fuel (slot.entry % 32) r' p.valid same
                  (omega (arith, slot.short)) (omega (arith, slot.short, all, length-bits w code))
                  (omega arith)))
      ]
