-- ===== src/Encode/Symbols.antt =====
-- `write_symbols` of src/encode.rs: the digits that the tokens of a block put out.
use noflate.Base.{
  ℕ, ◌-◌, ◌≤◌, ◌≡◌, refl, sym, ap, ◌∙◌, Option, none, some, List, [], ◌∷◌, ◌++◌, append_assoc,
  append-nil, get_elem?, All, All-get_elem?, u16, arith,
}
use native.Mathlib.Nat.{mod-eq_of_lt}
use noflate.Error.{Result, ok, ◌>>=◌}
use noflate.Symbol.{
  EncodedSymbol, length_table, distance_table, length_to_symbol, distance_to_symbol, end_of_block,
}
use noflate.Symbol.Laws.{
  Decodes, plain, with_extra, length_to_symbol-Decodes, distance_to_symbol-Decodes,
}
use noflate.Bit.View.{bits}
use noflate.Bit.Writer.{Writer}
use noflate.Bit.Writes.{
  written, IsFlushed, written-write_bits, Extends, Extends-refl, Extends-join, write_bits-Extends,
}
use noflate.Huffman.Encoder.{Code, HuffmanEncoder, encode}
use noflate.Huffman.Decoder.{HuffmanDecoder}
use noflate.Huffman.RoundTrip.{IsPair, IsWritten, code_digits, encode-IsWritten}
use noflate.Lz77.{Lz77Code, literal, pointer}
use noflate.Lz77.Reach.{IsToken}
use noflate.Encode.Blocks.{write_extra, write_symbol, write_symbols}

-- A symbol with a code.
pub record HasSymbol (enc : HuffmanEncoder) (symbol : ℕ) : Type 0 where
  pub code : Code
  pub there : get_elem? enc.codes symbol ≡ some code
  pub used : 1 ≤ code.width

abbrev pub digits_of : {enc : HuffmanEncoder} {s : ℕ} → HasSymbol enc s → List ℕ
digits_of h = code_digits h.code

abbrev pub extra_digits : Option (ℕ × ℕ) → List ℕ
extra_digits none = []
extra_digits (some (n, x)) = bits n x

-- The digits of a back-reference: those of its length's symbol and of its distance's, each with
-- its extra bits behind.
pub record PointerDigits (lit dist : HuffmanEncoder) (len distance : ℕ) (digits : List ℕ)
    : Type 0 where
  pub len_sym : EncodedSymbol
  pub dist_sym : EncodedSymbol
  pub len_decodes : Decodes length_table 257 len len_sym
  pub dist_decodes : Decodes distance_table 0 distance dist_sym
  pub len_code : HasSymbol lit len_sym.code
  pub dist_code : HasSymbol dist dist_sym.code
  pub made :
      digits
      ≡ digits_of len_code
        ++ (extra_digits len_sym.extra ++ (digits_of dist_code ++ extra_digits dist_sym.extra))

module _ (lit dist : HuffmanEncoder) where
  abbrev pub TokenDigits : Lz77Code → List ℕ → Type 0
  TokenDigits (literal byte) digits = (h : HasSymbol lit byte) × (digits ≡ digits_of h)
  TokenDigits (pointer len distance) digits = PointerDigits lit dist len distance digits

  -- The digits of the tokens of a block, and of the symbol that ends it.
  abbrev pub BlockDigits : List Lz77Code → List ℕ → Type 0
  BlockDigits [] digits = (h : HasSymbol lit end_of_block) × (digits ≡ digits_of h)
  BlockDigits (t ∷ ts) digits =
      (first : List ℕ) × (more : List ℕ) × TokenDigits t first
      × BlockDigits ts more
      × (digits ≡ first ++ more)

  -- The symbols that a token needs have codes.
  abbrev pub IsCodable : Lz77Code → Type 0
  IsCodable (literal byte) = HasSymbol lit byte
  IsCodable (pointer len distance) =
      ((s : EncodedSymbol) → length_to_symbol len ≡ ok s → HasSymbol lit s.code)
      × ((s : EncodedSymbol) → distance_to_symbol distance ≡ ok s → HasSymbol dist s.code)

length_table_bits : All (λ (e : ℕ × ℕ). e.1 ≤ 13) length_table
length_table_bits = ground arith

distance_table_bits : All (λ (e : ℕ × ℕ). e.1 ≤ 13) distance_table
distance_table_bits = ground arith

write_extra_lem :
    {table : List (ℕ × ℕ)} {first n : ℕ} {s : EncodedSymbol} (w : Writer)
    → All (λ (e : ℕ × ℕ). e.1 ≤ 13) table
    → Decodes table first n s
    → IsFlushed w
    → IsFlushed (write_extra s.extra w)
      × (written (write_extra s.extra w) ≡ written w ++ extra_digits s.extra)
      × Extends w (write_extra s.extra w)
unfolding write_extra
write_extra_lem w narrow (plain above at nothing base) f =
    rw nothing (f, sym (append-nil (written w)), Extends-refl w)
write_extra_lem {table} {first} {n} {s} w narrow
      (with_extra {base = base} {bits = width} {value = x} above at positive extra small sum) f =
    let below =
      All-get_elem? (λ (e : ℕ × ℕ). e.1 ≤ 13) table (s.code - first) (base, width) narrow at in
    let out = written-write_bits width x w f (omega arith) small in
    rw extra (out.0, out.1, write_bits-Extends width x w)

-- One write behind another.
then-IsWritten :
    {first more : List ℕ} {w : Writer} {out : Result Writer} (rest : Writer → Result Writer)
    → (a : IsWritten first w out) → IsWritten more a.after (rest a.after)
    → IsWritten (first ++ more) w (out >>= rest)
then-IsWritten {first} {more} {w} rest a b = record {
  after = b.after;
  returns = ap (λ o. o >>= rest) a.returns ∙ b.returns;
  flushed = b.flushed;
  appended = b.appended ∙ ap (λ l. l ++ more) a.appended ∙ append_assoc (written w) first more;
  extends = Extends-join a.extends b.extends;
}

module _ {lit dist : HuffmanEncoder} {lit_decoder dist_decoder : HuffmanDecoder}
    (lits : IsPair lit lit_decoder) (dists : IsPair dist dist_decoder) where
  write_digits :
      {enc : HuffmanEncoder} {d : HuffmanDecoder} (p : IsPair enc d) {s : ℕ} (h : HasSymbol enc s)
      (w : Writer)
      → IsFlushed w
      → IsWritten (digits_of h) w (encode enc s w)
  write_digits p {s} h w f = encode-IsWritten p s h.code w h.there h.used f

  write_symbol-IsWritten :
      (t : Lz77Code) (w : Writer)
      → IsToken t
      → IsCodable lit dist t
      → IsFlushed w
      → (digits : List ℕ) × TokenDigits lit dist t digits
        × IsWritten digits w (write_symbol lit dist t w)
  unfolding write_symbol
  write_symbol-IsWritten (literal byte) w limits c f =
      (digits_of c, (c, refl), write_digits lits c w f)
  write_symbol-IsWritten (pointer len distance) w limits c f =
      let (s, e, decodes) = length_to_symbol-Decodes len limits.0 limits.1 in
      let (s', e', decodes') = distance_to_symbol-Decodes distance limits.2 limits.3 in
      let len_code = c.0 s e in
      let dist_code = c.1 s' e' in
      let a = write_digits lits len_code w f in
      let a' = write_extra_lem a.after length_table_bits decodes a.flushed in
      let b = write_digits dists dist_code (write_extra s.extra a.after) a'.0 in
      let b' = write_extra_lem b.after distance_table_bits decodes' b.flushed in
      let cast : u16 len ≡ len = mod-eq_of_lt (omega (arith, limits.1)) in
      let cast' : u16 distance ≡ distance = mod-eq_of_lt (omega (arith, limits.3)) in
      (
        digits_of len_code
            ++ (extra_digits s.extra ++ (digits_of dist_code ++ extra_digits s'.extra)),
        record {
          len_sym = s;
          dist_sym = s';
          len_decodes = decodes;
          dist_decodes = decodes';
          len_code = len_code;
          dist_code = dist_code;
          made = refl;
        },
        record {
          after = write_extra s'.extra b.after;
          returns = rw (cast, e, a.returns, cast', e', b.returns) refl;
          flushed = b'.0;
          appended =
              b'.1
              ∙ ap (λ l. l ++ extra_digits s'.extra)
                  (b.appended
                    ∙ ap (λ l. l ++ digits_of dist_code)
                        (a'.1 ∙ ap (λ l. l ++ extra_digits s.extra) a.appended))
              ∙ regroup (written w) (digits_of len_code) (extra_digits s.extra)
                  (digits_of dist_code) (extra_digits s'.extra);
          extends = Extends-join (Extends-join a.extends a'.2) (Extends-join b.extends b'.2);
        },
      )
    where
      regroup : (a b c d e : List ℕ) → (((a ++ b) ++ c) ++ d) ++ e ≡ a ++ (b ++ (c ++ (d ++ e)))
      regroup a b c d e = simp append_assoc

  -- Writing tokens within the limits of the format, where each symbol that they need and the end of
  -- the block have codes, never fails on a writer with less than a byte buffered. It appends the
  -- digits of the tokens' symbols and extra bits and of the end of the block, and leaves less than a
  -- byte buffered.
  pub write_symbols-IsWritten :
      (ts : List Lz77Code) (w : Writer)
      → HasSymbol lit end_of_block
      → All IsToken ts
      → All (IsCodable lit dist) ts
      → IsFlushed w
      → (digits : List ℕ) × BlockDigits lit dist ts digits
        × IsWritten digits w (write_symbols lit dist ts w)
  unfolding write_symbols
  write_symbols-IsWritten [] w eob limits c f =
      (digits_of eob, (eob, refl), write_digits lits eob w f)
  write_symbols-IsWritten (t ∷ ts) w eob limits c f =
      let (first, coded, a) = write_symbol-IsWritten t w limits.0 c.0 f in
      let (more, block, b) = write_symbols-IsWritten ts a.after eob limits.1 c.1 a.flushed in
      (
        first ++ more,
        (first, more, coded, block, refl),
        then-IsWritten (write_symbols lit dist ts) a b,
      )
