-- ===== src/Decode/Body/Outcomes.antt =====
-- How the loop over the symbols of a block in src/decode.rs leaves it.
use noflate.Base.{
  ℕ, ◌+◌, ◌-◌, ◌≤◌, ◌<◌, ◌≡◌, ◌⊎◌, sym, ap, ◌∙◌, Bool, some, List, [], ◌∷◌, ◌++◌, length,
  length-append, All, arith, if◌then◌else◌,
}
use noflate.Error.{Result, ok}
use noflate.Bit.View.{length-bits}
use noflate.Bit.Reader.{Reader}
use noflate.Huffman.Encoder.{Code, HuffmanEncoder}
use noflate.Huffman.Decoder.{HuffmanDecoder}
use noflate.Lz77.{Lz77Code, literal, pointer}
use noflate.Lz77.Reach.{IsToken, expand, Reaches, HasWindow}
use noflate.Encode.Symbols.{HasSymbol, digits_of, TokenDigits, BlockDigits}
use noflate.Decode.State.{
  DecodeState, Machine, StepOutcome, block_header, symbol_loop, finished, progress, yield, done,
}
use noflate.Decode.Body.{max_internal_buffer}
use noflate.Decode.Body.Tokens.{IsCoder, Holds}

-- Where a block ends.
abbrev pub end_state : Bool → DecodeState
end_state is_final = if is_final then finished else block_header

abbrev pub end_outcome : Bool → StepOutcome
end_outcome is_final = if is_final then done else progress

pub length-digits_of :
    {enc : HuffmanEncoder} {s : ℕ} (h : HasSymbol enc s) → length (digits_of h) ≡ h.code.width
length-digits_of h = length-bits h.code.width h.code.code_bits

pub same_width :
    {enc : HuffmanEncoder} {s : ℕ} (a b : HasSymbol enc s) → a.code.width ≡ b.code.width
same_width a b = ap (λ (c : Code). c.width) (some_inj (sym a.there ∙ b.there))
  where
    some_inj : {x y : Code} → some x ≡ some y → x ≡ y
    some_inj e = cc

pub length-TokenDigits :
    (lit dist : HuffmanEncoder) (t : Lz77Code) (digits : List ℕ)
    → TokenDigits lit dist t digits
    → 1 ≤ length digits
length-TokenDigits lit dist (literal x) digits (h, e) =
    omega (arith, ap length e, length-digits_of h, h.used)
length-TokenDigits lit dist (pointer len distance) digits p = omega (
  arith,
  ap length p.made,
  length-append {0} (digits_of p.len_code) _,
  length-digits_of p.len_code,
  p.len_code.used,
)

module _ {lit dist : HuffmanEncoder} {ld dd : HuffmanDecoder} (coder : IsCoder lit dist ld dd) where
  pub length-BlockDigits :
      (ts : List Lz77Code) (digits : List ℕ)
      → BlockDigits lit dist ts digits
      → coder.eob.code.width ≤ length digits
  length-BlockDigits [] digits (h, e) =
      omega (arith, ap length e, length-digits_of h, same_width coder.eob h)
  length-BlockDigits (t ∷ ts) digits (first, more, coded, rest, e) =
      omega (arith, ap length e, length-append {0} first more, length-BlockDigits ts more rest)

  module _ (all : List ℕ) (drained : ℕ) (is_final : Bool) (tail : List ℕ) where
    -- The digits are used up, and the tokens have been put out.
    pub record Ends (ts : List Lz77Code) (s : Machine) (out : Result StepOutcome × Machine)
        : Type 0 where
      pub reader : Reader
      pub goes : out ≡ (
        ok (end_outcome is_final),
        record s { reader = reader; state = end_state is_final; output = expand ts s.output },
      )
      pub holds : Holds all 7 tail reader

    -- The output is full, and some of the tokens are left.
    pub record Yields (ts : List Lz77Code) (digits : List ℕ) (have : ℕ) (s : Machine)
        (out : Result StepOutcome × Machine) : Type 0 where
      pub reader : Reader
      pub output : List ℕ
      pub goes : out ≡ (
        ok yield,
        record s { reader = reader; state = symbol_loop is_final ld dd; output = output },
      )
      pub left : List Lz77Code
      pub left_digits : List ℕ
      pub coded : BlockDigits lit dist left left_digits
      pub holds : Holds all (coder.eob.code.width + 7) (left_digits ++ tail) reader
      pub limits : All IsToken left
      pub have' : ℕ
      pub reach : Reaches left have'
      pub kept : HasWindow have' output
      pub counted : have' + length s.output ≡ have + length output
      pub same : expand left output ≡ expand ts s.output
      pub full : max_internal_buffer ≤ length output - drained
      pub put : List ℕ
      pub grown : output ≡ s.output ++ put
      pub no_more : length left_digits ≤ length digits
      pub fewer : length s.output < length output → length left_digits < length digits

    abbrev pub Outcome :
        List Lz77Code → List ℕ → ℕ → Machine → Result StepOutcome × Machine → Type 0
    Outcome ts digits have s out = Ends ts s out ⊎ Yields ts digits have s out
