-- ===== src/Decode/Body/Block.antt =====
-- The loop over the symbols of a block in src/decode.rs, on the digits of a whole block.
use native.Mathlib.Decide.{dec_le}
use mathlib.Core.Path.{subst}
use noflate.Base.{
  ℕ, zero, suc, ◌+◌, ◌-◌, ◌≤◌, ◌<◌, ◌≡◌, inl, inr, refl, sym, ap, ◌∙◌, Bool, true, false, List, [],
  ◌∷◌, ◌++◌, append_assoc, append-nil, length, length-append, All, arith, if◌then◌else◌, le→leb,
}
use noflate.Error.{Result, ok}
use noflate.Symbol.{end_of_block}
use noflate.Bit.Reader.{Reader}
use noflate.Huffman.Encoder.{HuffmanEncoder}
use noflate.Huffman.Decoder.{HuffmanDecoder}
use noflate.Lz77.{Lz77Code}
use noflate.Lz77.Reach.{
  IsToken, expand, Reaches, HasWindow, token_len, expand_first, ReachesBack-length,
  length-expand_one, HasWindow-expand_one, expand-after,
}
use noflate.Encode.Symbols.{HasSymbol, digits_of, BlockDigits}
use noflate.Decode.State.{Machine, StepOutcome, block_header, go_to, finished, progress, done}
use noflate.Decode.Body.{symbol_rounds, use_symbol, max_internal_buffer}
use noflate.Decode.Body.Tokens.{IsCoder, Holds}
use noflate.Decode.Body.Rounds.{symbol_round, token_round}
use noflate.Decode.Body.Outcomes.{
  Ends, Outcome, end_state, end_outcome, length-digits_of, same_width, length-TokenDigits,
  length-BlockDigits,
}

module _ {lit dist : HuffmanEncoder} {ld dd : HuffmanDecoder} (coder : IsCoder lit dist ld dd)
    (all : List ℕ) (drained : ℕ) (is_final : Bool) (tail : List ℕ) where
  -- A token before the others.
  after_token :
      (t : Lz77Code) (ts : List Lz77Code) (first more : List ℕ) (have : ℕ) (s : Machine)
      (r : Reader) {out : Result StepOutcome × Machine}
      → 1 ≤ length first
      → Outcome coder all drained is_final tail ts more
          (have + token_len t)
          (record s { reader = r; output = expand (t ∷ []) s.output })
          out
      → Outcome coder all drained is_final tail (t ∷ ts) (first ++ more) have s out
  after_token t ts first more have s r some_digits (inl e) = inl (record {
    reader = e.reader;
    goes =
        e.goes
        ∙ ap
            (λ l. (
              ok (end_outcome is_final),
              record s { reader = e.reader; state = end_state is_final; output = l },
            ))
            (sym (expand_first t ts s.output));
    holds = e.holds;
  })
  after_token t ts first more have s r some_digits (inr y) =
      let one = expand-after (t ∷ []) s.output in
      inr (record {
        reader = y.reader;
        output = y.output;
        goes = y.goes;
        left = y.left;
        left_digits = y.left_digits;
        coded = y.coded;
        holds = y.holds;
        limits = y.limits;
        have' = y.have';
        reach = y.reach;
        kept = y.kept;
        counted = omega (arith, y.counted, length-expand_one t s.output);
        same = y.same ∙ sym (expand_first t ts s.output);
        full = y.full;
        put = one.0 ++ y.put;
        grown = y.grown ∙ ap (λ l. l ++ y.put) one.1 ∙ append_assoc s.output one.0 y.put;
        no_more = omega (arith, length-append {0} first more, y.no_more);
        fewer = λ less. omega (arith, length-append {0} first more, y.no_more);
      })

  yields_now :
      (fuel : ℕ) (ts : List Lz77Code) (digits : List ℕ) (have : ℕ) (s : Machine)
      → All IsToken ts
      → Reaches ts have
      → HasWindow have s.output
      → BlockDigits lit dist ts digits
      → Holds all (coder.eob.code.width + 7) (digits ++ tail) s.reader
      → max_internal_buffer ≤ length s.output - drained
      → Outcome coder all drained is_final tail ts digits have s
          (symbol_rounds drained is_final ld dd (suc fuel) s)
  unfolding symbol_rounds
  yields_now fuel ts digits have s limits reach kept coded holds full = inr (record {
    reader = s.reader;
    output = s.output;
    goes = rw (le→leb max_internal_buffer (length s.output - drained) full) refl;
    left = ts;
    left_digits = digits;
    coded = coded;
    holds = holds;
    limits = limits;
    have' = have;
    reach = reach;
    kept = kept;
    counted = refl;
    same = refl;
    full = full;
    put = [];
    grown = sym (append-nil s.output);
    no_more = omega arith;
    fewer = λ less. absurd (omega arith);
  })

  end_round :
      (fuel : ℕ) (s : Machine) (h : HasSymbol lit end_of_block)
      → length s.output - drained < max_internal_buffer
      → Holds all (coder.eob.code.width + 7) (digits_of h ++ tail) s.reader
      → Ends coder all drained is_final tail [] s
          (symbol_rounds drained is_final ld dd (suc fuel) s)
  unfolding use_symbol
  end_round fuel s h room holds =
      let round =
        symbol_round coder all drained is_final fuel end_of_block h tail s room
          (omega (
            arith,
            length-append {0} (digits_of h) tail,
            length-digits_of h,
            same_width coder.eob h,
          ))
          holds in
      record {
        reader = _;
        goes = round.0 ∙ ends is_final _;
        holds = record {
          valid = round.1.valid;
          there = round.1.there;
          input = round.1.input;
          few = round.2 (omega (arith, same_width coder.eob h));
        };
      }
    where
      ends :
          (b : Bool) (s : Machine)
          → (if b then go_to finished done else go_to block_header progress) s
            ≡ (ok (end_outcome b), record s { state = end_state b })
      ends true s = refl
      ends false s = refl

  -- The loop ends behind the block, with its tokens put out, or yields within it.
  pub block_rounds :
      (fuel : ℕ) (ts : List Lz77Code) (digits : List ℕ) (have : ℕ) (s : Machine)
      → All IsToken ts
      → Reaches ts have
      → HasWindow have s.output
      → BlockDigits lit dist ts digits
      → Holds all (coder.eob.code.width + 7) (digits ++ tail) s.reader
      → length digits ≤ fuel
      → Outcome coder all drained is_final tail ts digits have s
          (symbol_rounds drained is_final ld dd fuel s)
  block_rounds zero ts digits have s limits reach kept coded holds enough =
      absurd (omega (arith, length-BlockDigits coder ts digits coded, coder.eob.used))
  block_rounds (suc fuel) [] digits have s limits reach kept (h, e) holds enough =
      elim (dec_le max_internal_buffer (length s.output - drained)) [
        | yes full ↦ yields_now fuel [] digits have s limits reach kept (h, e) holds full
        | no room ↦ inl (
            end_round fuel s h (omega arith)
              (subst (λ l. Holds all (coder.eob.code.width + 7) (l ++ tail) s.reader) e holds))
      ]
  block_rounds (suc fuel) (t ∷ ts) digits have s limits reach kept (first, more, coded, block, e)
        holds enough =
      elim (dec_le max_internal_buffer (length s.output - drained)) [
        | yes full ↦
            yields_now fuel (t ∷ ts) digits have s limits reach kept (first, more, coded, block, e)
              holds full
        | no room ↦
            let some_digits = length-TokenDigits lit dist t first coded in
            let there : Holds all (coder.eob.code.width + 7) (first ++ (more ++ tail)) s.reader =
              subst (λ l. Holds all (coder.eob.code.width + 7) l s.reader)
                (ap (λ l. l ++ tail) e ∙ append_assoc first more tail) holds in
            let round =
              token_round coder all drained is_final fuel t first (more ++ tail) s limits.0
                (ReachesBack-length t have s.output limits.0 kept reach.0) (omega arith)
                (omega (arith, length-append {0} more tail, length-BlockDigits coder ts more block))
                coded there in
            let s' = record s { reader = round.reader; output = expand (t ∷ []) s.output } in
            subst
              (λ l.
                Outcome coder all drained is_final tail (t ∷ ts) l have s
                  (symbol_rounds drained is_final ld dd (suc fuel) s))
              (sym e)
              (after_token t ts first more have s round.reader some_digits (
                subst (Outcome coder all drained is_final tail ts more (have + token_len t) s')
                  (sym round.goes)
                  (block_rounds fuel ts more (have + token_len t) s' limits.1 reach.1
                    (HasWindow-expand_one t have s.output kept) block round.holds
                    (omega (arith, ap length e, length-append {0} first more)))))
      ]
