-- ===== src/Huffman/RoundTrip.antt =====
-- `HuffmanDecoder::decode` of src/huffman.rs on what `HuffmanEncoder::encode` writes.
use noflate.Base.{
  ℕ, ◌+◌, ◌≤◌, ◌≡◌, refl, sym, ap, ◌∙◌, Option, some, List, [], ◌∷◌, ◌++◌, length, length-set,
  length-replicate, get_elem?, get_elem?_lt, set, replicate, arith, u16, ◌<<<◌, ◌-◌,
}
use mathlib.Core.Path.{subst}
use noflate.Error.{Result, ok}
use noflate.Bit.View.{bits}
use noflate.Bit.Reader.{Reader}
use noflate.Bit.Reads.{stream, IsValid}
use noflate.Bit.Writer.{Writer, write_bits}
use noflate.Bit.Writes.{written, IsFlushed, written-write_bits, Extends, write_bits-Extends}
use noflate.Huffman.Codes.{reverse_bits, sort_by_key, used_symbols, width_of}
use noflate.Huffman.Encoder.{Code, HuffmanEncoder, empty, encode, code_width, assign_codes}
use noflate.Huffman.Encoder
use noflate.Huffman.Decoder.{HuffmanDecoder, decode}
use noflate.Huffman.Decoder
use noflate.Huffman.Decoder.Table.{bind-ok, from_code_lengths-IsTable}
use noflate.Huffman.Built.{Matches, tables-Matches, assign_codes_step}
use noflate.Huffman.Looks.{IsDecoded, IsLoaded, decode_loop-IsLoaded}

-- An encoder and a decoder that agree on their codes.
pub record IsPair (enc : HuffmanEncoder) (d : HuffmanDecoder) : Type 0 where
  pub matches : Matches d.table d.max_bits enc.codes
  pub narrow : d.max_bits ≤ 15
  pub looks : d.safely_peek_bits ≤ d.max_bits
  pub short : length enc.codes ≤ 2048

length-assign_codes :
    (entries : List (ℕ × ℕ)) (code previous : ℕ) (codes codes' : List Code)
    → assign_codes entries code previous codes ≡ ok codes'
    → length codes' ≡ length codes
length-assign_codes [] code previous codes codes' e =
    unfold assign_codes in let same : codes ≡ codes' = cc in ap length (sym same)
length-assign_codes ((symbol, width) ∷ rest) code previous codes codes' e =
    let entry : Code = record {
      width = width;
      code_bits = reverse_bits (u16 (code <<< (width - previous))) width;
    } in
    length-assign_codes rest (u16 (u16 (code <<< (width - previous)) + 1)) width
      (set codes symbol entry) codes'
      (assign_codes_step symbol width code previous rest codes codes' e)
    ∙ length-set codes symbol entry

length-from_code_lengths :
    (lengths : List ℕ) (enc : HuffmanEncoder)
    → Encoder.from_code_lengths lengths ≡ ok enc
    → length enc.codes ≡ length lengths
unfolding Encoder.from_code_lengths
length-from_code_lengths lengths enc e =
    let entries = sort_by_key width_of (used_symbols 0 lengths) in
    let (codes, assigned, same) =
      bind-ok (assign_codes entries 0 0 (replicate (length lengths) empty))
        (λ codes. ok (record { codes = codes })) enc e in
    subst (λ (k : HuffmanEncoder). length k.codes ≡ length lengths) (inj same)
      (length-assign_codes entries 0 0 (replicate (length lengths) empty) codes assigned
        ∙ length-replicate (length lengths) empty)
  where
    inj : {a b : HuffmanEncoder} → ok a ≡ ok b → a ≡ b
    inj e = cc

pub from_code_lengths-IsPair :
    (lengths : List ℕ) (safely eob : Option ℕ) (enc : HuffmanEncoder) (d : HuffmanDecoder)
    → length lengths ≤ 2048
    → Encoder.from_code_lengths lengths ≡ ok enc
    → Decoder.from_code_lengths lengths safely eob ≡ ok d
    → IsPair enc d
from_code_lengths-IsPair lengths safely eob enc d short made built =
    let t = from_code_lengths-IsTable lengths safely eob d built in
    record {
      matches = tables-Matches lengths safely eob enc d short made built;
      narrow = t.widest;
      looks = t.safely;
      short = omega (arith, length-from_code_lengths lengths enc made);
    }

abbrev pub code_digits : Code → List ℕ
code_digits c = bits c.width c.code_bits

-- What is there once `digits` are written.
pub record IsWritten (digits : List ℕ) (w : Writer) (out : Result Writer) : Type 0 where
  pub after : Writer
  pub returns : out ≡ ok after
  pub flushed : IsFlushed after
  pub appended : written after ≡ written w ++ digits
  pub extends : Extends w after

module _ {enc : HuffmanEncoder} {d : HuffmanDecoder} (p : IsPair enc d) where
  pub encode-IsWritten :
      (s : ℕ) (c : Code) (w : Writer)
      → get_elem? enc.codes s ≡ some c
      → 1 ≤ c.width
      → IsFlushed w
      → IsWritten (code_digits c) w (encode enc s w)
  unfolding encode
  encode-IsWritten s c w at used f =
      let h = p.matches s c at used in
      let out =
        written-write_bits c.width c.code_bits w f (omega (arith, h.inside, p.narrow)) h.fits in
      record {
        after = write_bits c.width c.code_bits w;
        returns = rw (encode, at) refl;
        flushed = out.0;
        appended = out.1;
        extends = write_bits-Extends c.width c.code_bits w;
      }

  pub decode-IsLoaded :
      (s : ℕ) (c : Code) (r : Reader) (behind : List ℕ)
      → get_elem? enc.codes s ≡ some c
      → 1 ≤ c.width
      → IsValid r
      → stream r ≡ code_digits c ++ behind
      → d.safely_peek_bits ≤ length (stream r)
      → IsLoaded d.safely_peek_bits c.width s behind r (decode d r)
  unfolding decode
  decode-IsLoaded s c r behind at used v here there =
      decode_loop-IsLoaded d c.width c.code_bits s behind p.narrow
        (omega (arith, get_elem?_lt enc.codes s c at, p.short)) (p.matches s c at used) 16
        d.safely_peek_bits r v here p.looks there (omega arith)

-- An encoder and a decoder from the same code lengths, 2048 at most: encoding a symbol that has a code
-- appends the digits of the code on a writer with less than a byte buffered, and from a valid reader
-- that holds these digits, with anything behind, the decoder gives the symbol back and leaves what
-- stands behind. The reader holds at least the bits that the decoder looks at first.
pub decode-encode :
    (lengths : List ℕ) (safely eob : Option ℕ) (enc : HuffmanEncoder) (d : HuffmanDecoder)
    (symbol : ℕ) (c : Code) (w : Writer) (r : Reader) (behind : List ℕ)
    → length lengths ≤ 2048
    → Encoder.from_code_lengths lengths ≡ ok enc
    → Decoder.from_code_lengths lengths safely eob ≡ ok d
    → get_elem? enc.codes symbol ≡ some c
    → 1 ≤ c.width
    → IsFlushed w
    → IsValid r
    → stream r ≡ code_digits c ++ behind
    → d.safely_peek_bits ≤ length (stream r)
    → IsWritten (code_digits c) w (encode enc symbol w) × IsDecoded symbol behind (decode d r)
decode-encode lengths safely eob enc d symbol c w r behind short made built at used f v holds
      there =
    let p = from_code_lengths-IsPair lengths safely eob enc d short made built in
    (
      encode-IsWritten p symbol c w at used f,
      (decode-IsLoaded p symbol c r behind at used v holds there).decoded,
    )
