-- ===== src/Decode/Fixed.antt =====
-- The codes of a block with fixed codes, for src/encode.rs and src/decode.rs.
use noflate.Base.{
  ℕ, zero, suc, ◌+◌, ◌-◌, ◌≤◌, ◌<◌, ◌≡◌, refl, sym, ◌∙◌, Bool, true, false, ◌&&◌, none, some, List,
  [], ◌∷◌, length, get_elem?, get_elem?_lt, arith, leb, leb→le,
}
use mathlib.Core.Path.{subst}
use noflate.Error.{Result, ok, err, panic, out_of_fuel}
use noflate.Symbol.{
  EncodedSymbol, fixed_literal_code_lengths, fixed_distance_code_lengths, end_of_block,
}
use noflate.Symbol.Laws.{
  Decodes, plain, with_extra, length_to_symbol-Decodes, distance_to_symbol-Decodes,
}
use noflate.Huffman.Encoder.{Code, HuffmanEncoder}
use noflate.Huffman.Encoder
use noflate.Huffman.Decoder.{HuffmanDecoder}
use noflate.Huffman.Decoder
use noflate.Huffman.RoundTrip.{from_code_lengths-IsPair}
use noflate.Lz77.{Lz77Code, literal, pointer}
use noflate.Lz77.Reach.{IsToken}
use noflate.Encode.Symbols.{HasSymbol, IsCodable}
use noflate.Decode.Body.Tokens.{IsCoder}

-- The tables of fixed codes, with what makes a block of them readable.
pub record FixedTables : Type 0 where
  pub lit : HuffmanEncoder
  pub dist : HuffmanEncoder
  pub ld : HuffmanDecoder
  pub dd : HuffmanDecoder
  pub lit_made : Encoder.from_code_lengths fixed_literal_code_lengths ≡ ok lit
  pub dist_made : Encoder.from_code_lengths fixed_distance_code_lengths ≡ ok dist
  pub ld_made :
      Decoder.from_code_lengths fixed_literal_code_lengths none (some end_of_block) ≡ ok ld
  pub dd_made : Decoder.from_code_lengths fixed_distance_code_lengths (some 7) none ≡ ok dd
  pub literals : (s : ℕ) → s < 286 → HasSymbol lit s
  pub distances : (s : ℕ) → s < 30 → HasSymbol dist s
  pub coder : IsCoder lit dist ld dd

-- The first `n` codes have digits, and no code has fewer than `least`.
wide : ℕ → ℕ → List Code → Bool
wide least zero codes = true
wide least (suc n) [] = false
wide least (suc n) (c ∷ codes) = let rest = wide least n codes in leb least c.width && rest

wide_lem :
    (least n : ℕ) (codes : List Code) (s : ℕ)
    → wide least n codes ≡ true
    → s < n
    → (c : Code) × (get_elem? codes s ≡ some c) × (least ≤ c.width)
unfolding wide
wide_lem least zero codes s h below = absurd (omega arith)
wide_lem least (suc n) [] s h below = cc
wide_lem least (suc n) (c ∷ codes) zero h below = (c, refl, ground (arith, h))
wide_lem least (suc n) (c ∷ codes) (suc s) h below =
    wide_lem least n codes s (ground (arith, h)) (omega arith)

-- The four tables are made, and fit.
fits :
    Result HuffmanEncoder
    → Result HuffmanEncoder
    → Result HuffmanDecoder
    → Result HuffmanDecoder
    → Bool
unfolding wide
fits (ok lit) (ok dist) (ok ld) (ok dd) =
    wide 7 286 lit.codes
    && (wide 5 30 dist.codes && (leb ld.safely_peek_bits 7 && leb dd.safely_peek_bits 7))
fits _ _ _ _ = false

fixed_fits :
    fits
      (Encoder.from_code_lengths fixed_literal_code_lengths)
      (Encoder.from_code_lengths fixed_distance_code_lengths)
      (Decoder.from_code_lengths fixed_literal_code_lengths none (some end_of_block))
      (Decoder.from_code_lengths fixed_distance_code_lengths (some 7) none)
    ≡ true
unfolding fits Encoder.from_code_lengths Decoder.from_code_lengths fixed_literal_code_lengths
    fixed_distance_code_lengths
fixed_fits = refl

symbol_at :
    {enc : HuffmanEncoder} {least n s : ℕ}
    → 1 ≤ least
    → wide least n enc.codes ≡ true
    → s < n
    → HasSymbol enc s
symbol_at {enc} {least} {n} {s} positive h below =
    let (c, there, width) = wide_lem least n enc.codes s h below in
    record { code = c; there = there; used = omega arith }

both : (a b : Bool) → (a && b) ≡ true → (a ≡ true) × (b ≡ true)
both true b h = (refl, h)
both false b h = cc

short_literals : length fixed_literal_code_lengths ≤ 2048
unfolding fixed_literal_code_lengths
short_literals = omega arith

short_distances : length fixed_distance_code_lengths ≤ 2048
unfolding fixed_distance_code_lengths
short_distances = omega arith

made :
    (x : Result HuffmanEncoder) (y : Result HuffmanEncoder) (z : Result HuffmanDecoder)
    (u : Result HuffmanDecoder)
    → fits x y z u ≡ true
    → (lit : HuffmanEncoder) × (dist : HuffmanEncoder) × (ld : HuffmanDecoder)
      × (dd : HuffmanDecoder) × (x ≡ ok lit)
      × (y ≡ ok dist)
      × (z ≡ ok ld)
      × (u ≡ ok dd)
      × (wide 7 286 lit.codes ≡ true)
      × (wide 5 30 dist.codes ≡ true)
      × (ld.safely_peek_bits ≤ 7)
      × (dd.safely_peek_bits ≤ 7)
unfolding fits
made (ok lit) (ok dist) (ok ld) (ok dd) h =
    let a = both (wide 7 286 lit.codes) _ h in
    let b = both (wide 5 30 dist.codes) _ a.1 in
    let c = both (leb ld.safely_peek_bits 7) (leb dd.safely_peek_bits 7) b.1 in
    (lit, dist, ld, dd, refl, refl, refl, refl, a.0, b.0, leb→le _ _ c.0, leb→le _ _ c.1)
made (err e) y z u h = cc
made panic y z u h = cc
made out_of_fuel y z u h = cc
made (ok x) (err e) z u h = cc
made (ok x) panic z u h = cc
made (ok x) out_of_fuel z u h = cc
made (ok x) (ok y) (err e) u h = cc
made (ok x) (ok y) panic u h = cc
made (ok x) (ok y) out_of_fuel u h = cc
made (ok x) (ok y) (ok z) (err e) h = cc
made (ok x) (ok y) (ok z) panic h = cc
made (ok x) (ok y) (ok z) out_of_fuel h = cc

pub fixed_tables : FixedTables
fixed_tables =
    let (lit, dist, ld, dd, lit_made, dist_made, ld_made, dd_made, lits, dists, l, d) =
      made (Encoder.from_code_lengths fixed_literal_code_lengths)
        (Encoder.from_code_lengths fixed_distance_code_lengths)
        (Decoder.from_code_lengths fixed_literal_code_lengths none (some end_of_block))
        (Decoder.from_code_lengths fixed_distance_code_lengths (some 7) none) fixed_fits in
    let (eob, there, width) = wide_lem 7 286 lit.codes end_of_block lits (omega arith) in
    record {
      lit = lit;
      dist = dist;
      ld = ld;
      dd = dd;
      lit_made = lit_made;
      dist_made = dist_made;
      ld_made = ld_made;
      dd_made = dd_made;
      literals = λ s below. symbol_at {least = 7} (omega arith) lits below;
      distances = λ s below. symbol_at {least = 5} (omega arith) dists below;
      coder = record {
        lits =
            from_code_lengths-IsPair fixed_literal_code_lengths none (some end_of_block) lit ld
              short_literals lit_made ld_made;
        dists =
            from_code_lengths-IsPair fixed_distance_code_lengths (some 7) none dist dd
              short_distances dist_made dd_made;
        eob = record { code = eob; there = there; used = omega arith };
        lit_looks = omega arith;
        dist_looks = omega arith;
      };
    }

-- A symbol that the decoder's table has an entry for.
code_below :
    {table : List (ℕ × ℕ)} {first n : ℕ} {s : EncodedSymbol}
    → Decodes table first n s
    → s.code < first + length table
code_below {table} {first} {n} {s} (plain {base = base} above at nothing sum) =
    omega (arith, get_elem?_lt table (s.code - first) (base, 0) at)
code_below {table} {first} {n} {s}
      (with_extra {base = base} {bits = width} above at positive extra small sum) =
    omega (arith, get_elem?_lt table (s.code - first) (base, width) at)

-- Every token within the limits of the format has fixed codes.
pub fixed-IsCodable : (f : FixedTables) (t : Lz77Code) → IsToken t → IsCodable f.lit f.dist t
fixed-IsCodable f (literal x) limits = f.literals x (omega arith)
fixed-IsCodable f (pointer len distance) limits =
    let (s, e, decodes) = length_to_symbol-Decodes len limits.0 limits.1 in
    let (s', e', decodes') = distance_to_symbol-Decodes distance limits.2 limits.3 in
    (
      λ k same.
          subst (λ (k : EncodedSymbol). HasSymbol f.lit k.code) (inj (sym e ∙ same))
            (f.literals s.code (code_below decodes)),
      λ k same.
          subst (λ (k : EncodedSymbol). HasSymbol f.dist k.code) (inj (sym e' ∙ same))
            (f.distances s'.code (code_below decodes')),
    )
  where
    inj : {a b : EncodedSymbol} → ok a ≡ ok b → a ≡ b
    inj e = cc
