-- ===== src/Decode/Stream/FixedSteps.antt =====
-- The steps of src/decode.rs on a block with fixed codes.
use mathlib.Core.Path.{subst}
use noflate.Base.{
  ℕ, ◌+◌, ◌<◌, ◌≡◌, refl, ap, Bool, true, false, not, List, [], ◌∷◌, ◌++◌, arith, length,
  length-append, All, leb, ◌==◌, le→leb,
}
use noflate.Error.{ok}
use noflate.Bit.View.{bits}
use noflate.Bit.Reader.{Reader, available_bits, read_bit, read_bits}
use noflate.Bit.Refine.{available_bits-eq-length}
use noflate.Lz77.{Lz77Code}
use noflate.Lz77.Reach.{IsToken, Reaches, HasWindow}
use noflate.Encode.Symbols.{BlockDigits}
use noflate.Encode.Fixed.{fixed_header, flag}
use noflate.Decode.State.{Machine, block_header, symbol_loop, transient, progress, on_reader}
use noflate.Decode.Header.{step_block_header, start_block, fixed_block}
use noflate.Decode.Body.{step, step_symbol_loop}
use noflate.Decode.Body.Tokens.{Holds, read_bits-Holds}
use noflate.Decode.Body.Outcomes.{Outcome}
use noflate.Decode.Body.Block.{block_rounds}
use noflate.Decode.Fixed.{FixedTables}

module _ (f : FixedTables) (all : List ℕ) (drained : ℕ) where
  -- A step over the header of a block with fixed codes.
  pub record HeaderStep (is_final : Bool) (behind : List ℕ) (s : Machine) : Type 0 where
    pub reader : Reader
    pub goes :
        step drained s
        ≡ (ok progress, record s { reader = reader; state = symbol_loop is_final f.ld f.dd })
    pub holds : Holds all 7 behind reader

  pub step-HeaderStep :
      (is_final : Bool) (behind : List ℕ) (s : Machine)
      → s.state ≡ block_header
      → Holds all 7 (fixed_header is_final ++ behind) s.reader
      → HeaderStep is_final behind s
  unfolding step step_block_header start_block fixed_block on_reader read_bit
  step-HeaderStep is_final behind s at holds =
      let enough : leb 3 (available_bits s.reader) ≡ true =
        le→leb _ _ (omega (arith, available_bits-eq-length s.reader, ap length holds.there)) in
      let one =
        read_bits-Holds 1 (flag is_final) all 7 (1 ∷ 0 ∷ behind) s.reader (omega arith)
          (omega arith) (small is_final)
          (subst (λ l. Holds all 7 (l ++ (1 ∷ 0 ∷ behind)) s.reader) (low is_final) holds) in
      let two =
        read_bits-Holds 2 1 all 7 behind (read_bits 1 s.reader).1 (omega arith) (omega arith)
          (omega arith) one.1 in
      record {
        reader = (read_bits 2 (read_bits 1 s.reader).1).1;
        goes = rw (at, enough, one.0, two.0, f.ld_made, f.dd_made, back is_final) refl;
        holds = two.1;
      }
    where
      small : (b : Bool) → flag b < 2
      small true = omega arith
      small false = omega arith

      low : (b : Bool) → flag b ∷ [] ≡ bits 1 (flag b)
      low true = refl
      low false = refl

      back : (b : Bool) → not (flag b == 0) ≡ b
      back true = refl
      back false = refl

  -- A step over the symbols of a block.
  pub step_symbols :
      (is_final : Bool) (tail : List ℕ) (ts : List Lz77Code) (digits : List ℕ) (have : ℕ)
      (s : Machine)
      → s.state ≡ symbol_loop is_final f.ld f.dd
      → All IsToken ts
      → Reaches ts have
      → HasWindow have s.output
      → BlockDigits f.lit f.dist ts digits
      → Holds all (f.coder.eob.code.width + 7) (digits ++ tail) s.reader
      → Outcome f.coder all drained is_final tail ts digits have
          (record s { state = transient })
          (step drained s)
  unfolding step step_symbol_loop
  step_symbols is_final tail ts digits have s at limits reach kept block holds = rw at (
      block_rounds f.coder all drained is_final tail (available_bits s.reader + 1) ts digits have
        (record s { state = transient }) limits reach kept block holds
        (omega (
          arith,
          available_bits-eq-length s.reader,
          ap length holds.there,
          length-append {0} digits tail,
        )))
