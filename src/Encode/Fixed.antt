-- ===== src/Encode/Fixed.antt =====
-- What src/encode.rs writes of blocks with fixed codes.
use noflate.Base.{
  ℕ, ◌<◌, ◌^◌, ◌≡◌, refl, sym, ap, length, append-nil, ◌∙◌, Bool, true, false, List, [], ◌∷◌, ◌++◌,
  append_assoc, All, arith, if◌then◌else◌,
}
use noflate.Error.{ok}
use noflate.Bit.View.{bits}
use noflate.Bit.Writer.{Writer, write_bit, write_bits}
use noflate.Bit.Writes.{
  written, IsFlushed, written-write_bits, Extends, Extends-join, write_bits-Extends,
}
use noflate.Huffman.RoundTrip.{IsWritten}
use noflate.Lz77.{Lz77Code}
use noflate.Lz77.Reach.{IsToken, Reaches, Reaches-more, expand, expand-behind}
use noflate.Encode.Blocks.{emit_fixed, end_block}
use noflate.Encode.Symbols.{BlockDigits, IsCodable, write_symbols-IsWritten}
use noflate.Decode.Fixed.{FixedTables, fixed-IsCodable}

abbrev pub flag : Bool → ℕ
flag is_final = if is_final then 1 else 0

-- The flag of the last block, and the type of its codes.
abbrev pub fixed_header : Bool → List ℕ
fixed_header is_final = flag is_final ∷ 1 ∷ 0 ∷ []

-- The header of a block with fixed codes is put out.
header-IsWritten :
    (is_final : Bool) (w : Writer)
    → IsFlushed w
    → IsWritten (fixed_header is_final) w (ok (write_bits 2 1 (write_bit is_final w)))
unfolding write_bit
header-IsWritten is_final w f =
    let one = written-write_bits 1 (flag is_final) w f (omega arith) (small is_final) in
    let two =
      written-write_bits 2 1 (write_bits 1 (flag is_final) w) one.0 (omega arith) (omega arith) in
    record {
      after = write_bits 2 1 (write_bits 1 (flag is_final) w);
      returns = refl;
      flushed = two.0;
      appended =
          two.1
          ∙ ap (λ l. l ++ bits 2 1) (one.1 ∙ ap (λ l. written w ++ l) (low is_final))
          ∙ append_assoc (written w) (flag is_final ∷ []) (bits 2 1);
      extends =
          Extends-join (write_bits-Extends 1 (flag is_final) w)
            (write_bits-Extends 2 1 (write_bits 1 (flag is_final) w));
    }
  where
    small : (b : Bool) → flag b < 2 ^ 1
    small true = omega arith
    small false = omega arith

    low : (b : Bool) → bits 1 (flag b) ≡ flag b ∷ []
    low true = refl
    low false = refl

-- The tokens of one block of a chunk, behind what the blocks before it put out. They may copy from
-- the content of those.
pub record IsChunk (past : List ℕ) (ts : List Lz77Code) (chunk : List ℕ) : Type 0 where
  pub same : expand ts past ≡ past ++ chunk
  pub limits : All IsToken ts
  pub reach : Reaches ts (length past)

-- Tokens that copy from their own block only.
pub expand-IsChunk :
    (past : List ℕ) (ts : List Lz77Code) (chunk : List ℕ)
    → expand ts [] ≡ chunk
    → All IsToken ts
    → Reaches ts 0
    → IsChunk past ts chunk
expand-IsChunk past ts chunk same limits reach = record {
  same =
      ap (expand ts) (sym (append-nil past))
      ∙ expand-behind ts 0 past [] limits reach (omega arith)
      ∙ ap (λ l. past ++ l) same;
  limits = limits;
  reach = Reaches-more ts 0 (length past) (omega arith) reach;
}

module _ (f : FixedTables) where
  -- What a block with fixed codes puts out before it is padded.
  pub record IsEmitted (is_final : Bool) (ts : List Lz77Code) (w : Writer) : Type 0 where
    pub digits : List ℕ
    pub block : BlockDigits f.lit f.dist ts digits
    pub after : Writer
    pub emits : emit_fixed is_final ts w ≡ ok (end_block is_final after)
    pub flushed : IsFlushed after
    pub appended : written after ≡ written w ++ (fixed_header is_final ++ digits)
    pub extends : Extends w after

  pub emit_fixed-IsEmitted :
      (is_final : Bool) (ts : List Lz77Code) (w : Writer)
      → All IsToken ts
      → IsFlushed w
      → IsEmitted is_final ts w
  unfolding emit_fixed
  emit_fixed-IsEmitted is_final ts w limits flushed =
      let header = header-IsWritten is_final w flushed in
      let eob = f.coder.eob in
      let (digits, block, out) =
        write_symbols-IsWritten f.coder.lits f.coder.dists ts header.after eob limits
          (codable ts limits) header.flushed in
      record {
        digits = digits;
        block = block;
        after = out.after;
        emits = rw (f.lit_made, f.dist_made, inj header.returns, out.returns) refl;
        flushed = out.flushed;
        appended =
            out.appended
            ∙ ap (λ l. l ++ digits) header.appended
            ∙ append_assoc (written w) (fixed_header is_final) digits;
        extends = Extends-join header.extends out.extends;
      }
    where
      inj : {a b : Writer} → ok a ≡ ok b → a ≡ b
      inj e = cc

      codable : (ts : List Lz77Code) → All IsToken ts → All (IsCodable f.lit f.dist) ts
      codable [] limits = tt
      codable (t ∷ ts) limits = (fixed-IsCodable f t limits.0, codable ts limits.1)

  -- A stream of blocks with fixed codes: the content before it, its content, its digits up to the end
  -- of the last block, and what stands behind.
  pub data FixedStream (behind : List ℕ) : List ℕ → List ℕ → List ℕ → Type 0 where
    last :
        {past content stream : List ℕ} (ts : List Lz77Code) (digits : List ℕ)
        → IsChunk past ts content
        → BlockDigits f.lit f.dist ts digits
        → stream ≡ fixed_header true ++ (digits ++ behind)
        → FixedStream behind past content stream
    more :
        {past content stream : List ℕ} (ts : List Lz77Code) (digits chunk content' stream' : List ℕ)
        → IsChunk past ts chunk
        → BlockDigits f.lit f.dist ts digits
        → FixedStream behind (past ++ chunk) content' stream'
        → content ≡ chunk ++ content'
        → stream ≡ fixed_header false ++ (digits ++ stream')
        → FixedStream behind past content stream

  -- Digits of blocks that are not the last, from the start on: before a stream they make a stream.
  abbrev pub IsOpen : List ℕ → List ℕ → Type 0
  IsOpen content digits =
      (behind content' stream' : List ℕ)
      → FixedStream behind content content' stream'
      → FixedStream behind [] (content ++ content') (digits ++ stream')
