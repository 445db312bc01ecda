-- ===== src/Decode/Body/Rounds.antt =====
-- The loop over the symbols of a block in src/decode.rs: a round over a token.
use noflate.Base.{
  ℕ, suc, ◌+◌, ◌-◌, ◌≤◌, ◌<◌, ◌≡◌, refl, ap, ◌∙◌, Bool, false, some, List, [], ◌∷◌, ◌++◌,
  append_assoc, length, length-append, get_elem?, All, u8, u16, arith, ◌==◌, get_elem?_lt, lt→ltb,
  le→ltb_false,
}
use mathlib.Core.Path.{subst}
use native.Mathlib.Nat.{mod-eq_of_lt}
use noflate.Error.{ok}
use noflate.Exec.{Exec}
use noflate.Symbol.{EncodedSymbol, length_table, distance_table, end_of_block}
use noflate.Bit.Reader.{Reader, snapshot, ReaderState}
use noflate.Bit.Refine.{available_bits-eq-length}
use noflate.Huffman.Encoder.{HuffmanEncoder}
use noflate.Huffman.Decoder.{HuffmanDecoder, decode}
use noflate.Lz77.{Lz77Code, literal, pointer}
use noflate.Lz77.Reach.{IsToken, expand, ReachesBack}
use noflate.Encode.Symbols.{HasSymbol, digits_of, extra_digits, PointerDigits, TokenDigits}
use noflate.Decode.Copy.Repeats.{copy_bytes}
use noflate.Decode.Copy.Bytewise.{copy_from_distance-copy_bytes}
use noflate.Decode.State.{Machine, StepOutcome, on_reader}
use noflate.Decode.Body.{
  symbol_rounds, use_symbol, back_reference, extra, copy, max_internal_buffer,
}
use noflate.Decode.Body.Tokens.{
  IsCoder, Holds, decode-Holds, round_decodes, or_roll_back_ok, ExtraRead, extra-ExtraRead,
}

length_table_bits : All (λ (e : ℕ × ℕ). e.1 ≤ 13) length_table
length_table_bits = ground arith

distance_table_bits : All (λ (e : ℕ × ℕ). e.1 ≤ 13) distance_table
distance_table_bits = ground arith

module _ {lit dist : HuffmanEncoder} {ld dd : HuffmanDecoder} (coder : IsCoder lit dist ld dd)
    (all : List ℕ) (drained : ℕ) (is_final : Bool) where
  -- A round over a token puts out what the token stands for.
  pub record TokenRound (fuel : ℕ) (t : Lz77Code) (behind : List ℕ) (s : Machine) : Type 0 where
    pub reader : Reader
    pub goes :
        symbol_rounds drained is_final ld dd (suc fuel) s
        ≡ symbol_rounds drained is_final ld dd fuel
            (record s { reader = reader; output = expand (t ∷ []) s.output })
    pub holds : Holds all (coder.eob.code.width + 7) behind reader

  -- A round that decodes a symbol whose code the reader holds.
  pub symbol_round :
      (fuel symbol : ℕ) (h : HasSymbol lit symbol) (behind : List ℕ) (s : Machine)
      → length s.output - drained < max_internal_buffer
      → coder.eob.code.width ≤ length (digits_of h ++ behind)
      → Holds all (coder.eob.code.width + 7) (digits_of h ++ behind) s.reader
      → (symbol_rounds drained is_final ld dd (suc fuel) s
          ≡ use_symbol drained is_final ld dd
              (snapshot s.reader)
              (symbol_rounds drained is_final ld dd fuel)
              symbol
              (record s { reader = (decode ld s.reader).1 }))
        × Holds all (coder.eob.code.width + 7) behind (decode ld s.reader).1
        × (coder.eob.code.width ≤ h.code.width → (decode ld s.reader).1.bit_count ≤ 7)
  symbol_round fuel symbol h behind s room enough holds =
      let got =
        decode-Holds coder.lits h all coder.eob.code.width behind s.reader coder.lit_looks
          (omega (arith, coder.lit_looks)) holds in
      (
        round_decodes drained is_final ld dd fuel symbol s room
            (omega
              (arith, coder.lit_looks, available_bits-eq-length s.reader, ap length holds.there))
            got.0,
        got.1,
        got.2,
      )

  literal_round :
      (fuel byte : ℕ) (h : HasSymbol lit byte) (behind : List ℕ) (s : Machine)
      → byte < 256
      → length s.output - drained < max_internal_buffer
      → coder.eob.code.width ≤ length (digits_of h ++ behind)
      → Holds all (coder.eob.code.width + 7) (digits_of h ++ behind) s.reader
      → TokenRound fuel (literal byte) behind s
  unfolding use_symbol
  literal_round fuel byte h behind s small room enough holds =
      let round = symbol_round fuel byte h behind s room enough holds in
      let cast : u8 byte ≡ byte = mod-eq_of_lt small in
      record {
        reader = (decode ld s.reader).1;
        goes = round.0 ∙ rw (lt→ltb byte 256 small, cast) refl;
        holds = round.1;
      }

  -- The symbol of a length is a back-reference.
  reference_symbol :
      (snap : ReaderState) (again : Exec Machine StepOutcome) (len : ℕ) (s : EncodedSymbol)
      (base width : ℕ) (m : Machine)
      → 257 ≤ s.code
      → get_elem? length_table (s.code - 257) ≡ some (base, width)
      → use_symbol drained is_final ld dd snap again s.code m
        ≡ back_reference drained is_final ld dd snap again (some (base, width)) m
  unfolding use_symbol
  reference_symbol snap again len s base width m above at =
      let inside = get_elem?_lt length_table (s.code - 257) (base, width) at in
      let other : (s.code == end_of_block) ≡ false = ground arith in
      rw (le→ltb_false s.code 256 (omega arith), other, lt→ltb s.code 286 (omega arith), at) refl

  -- The reads of a back-reference, and its copy.
  reference_goes :
      (snap : ReaderState) (again : Exec Machine StepOutcome) (len distance : ℕ)
      (len_sym dist_sym : EncodedSymbol) (second last behind : List ℕ) (m : Machine)
      (after : Reader)
      → IsToken (pointer len distance)
      → distance ≤ length m.output
      → (a : ExtraRead all (coder.eob.code.width + 7) length_table 257 len len_sym second m)
      → decode dd a.reader ≡ (ok dist_sym.code, after)
      → (c : ExtraRead all
          (coder.eob.code.width + 7)
          distance_table
          0
          distance
          dist_sym
          behind
          (record m { reader = after }))
      → back_reference drained is_final ld dd snap again (some (a.base, a.width)) m
        ≡ again (record m { reader = c.reader; output = copy_bytes distance len m.output })
  unfolding back_reference copy on_reader
  reference_goes snap again len distance len_sym dist_sym second last behind m after limits reach a
        b c =
      let entry : get_elem? distance_table dist_sym.code ≡ some (c.base, c.width) =
        ap (get_elem? distance_table) {x = dist_sym.code} {y = dist_sym.code - 0} (omega arith)
        ∙ c.entry in
      let cast : u16 (a.base + a.read) ≡ len =
        ap u16 a.sum ∙ mod-eq_of_lt (omega (arith, limits.1)) in
      let cast' : u16 (c.base + c.read) ≡ distance =
        ap u16 c.sum ∙ mod-eq_of_lt (omega (arith, limits.3)) in
      let copied = copy_from_distance-copy_bytes distance len m.output limits.2 reach in
      or_roll_back_ok _ (extra a.width) _ m (record m { reader = a.reader }) a.read a.returns
      ∙ or_roll_back_ok _ (on_reader (decode dd)) _ (record m { reader = a.reader })
          (record m { reader = after }) dist_sym.code (rw b refl)
      ∙ rw entry (
          or_roll_back_ok _ (extra c.width) _ (record m { reader = after })
            (record m { reader = c.reader }) c.read c.returns
          ∙ rw (cast, cast', copied) refl)

  pointer_round :
      (fuel len distance : ℕ) (digits behind : List ℕ) (s : Machine)
      → IsToken (pointer len distance)
      → distance ≤ length s.output
      → length s.output - drained < max_internal_buffer
      → coder.eob.code.width ≤ length behind
      → PointerDigits lit dist len distance digits
      → Holds all (coder.eob.code.width + 7) (digits ++ behind) s.reader
      → TokenRound fuel (pointer len distance) behind s
  pointer_round fuel len distance digits behind s limits reach room enough p holds =
      let again = symbol_rounds drained is_final ld dd fuel in
      let snap = snapshot s.reader in
      let last = extra_digits p.dist_sym.extra ++ behind in
      let second = digits_of p.dist_code ++ last in
      let first = extra_digits p.len_sym.extra ++ second in
      let whole : digits ++ behind ≡ digits_of p.len_code ++ first =
        ap (λ l. l ++ behind) p.made ∙ simp append_assoc in
      let l1 = length-append {0} (digits_of p.len_code) first in
      let l2 = length-append {0} (extra_digits p.len_sym.extra) second in
      let l3 = length-append {0} (digits_of p.dist_code) last in
      let l4 = length-append {0} (extra_digits p.dist_sym.extra) behind in
      let start =
        symbol_round fuel p.len_sym.code p.len_code first s room (omega arith)
          (subst (λ l. Holds all (coder.eob.code.width + 7) l s.reader) whole holds) in
      let m = record s { reader = (decode ld s.reader).1 } in
      let a =
        extra-ExtraRead all (coder.eob.code.width + 7) length_table 257 len p.len_sym second m
          length_table_bits (omega arith) p.len_decodes start.1 in
      let b =
        decode-Holds coder.dists p.dist_code all coder.eob.code.width last a.reader coder.dist_looks
          (omega (arith, coder.dist_looks)) a.holds in
      let after = (decode dd a.reader).1 in
      let c =
        extra-ExtraRead all (coder.eob.code.width + 7) distance_table 0 distance p.dist_sym behind
          (record m { reader = after }) distance_table_bits (omega arith) p.dist_decodes b.1 in
      record {
        reader = c.reader;
        goes =
            start.0
            ∙ reference_symbol snap again len p.len_sym a.base a.width m a.above a.entry
            ∙ reference_goes snap again len distance p.len_sym p.dist_sym second last behind m after
                limits reach a (both (decode dd a.reader) b.0) c;
        holds = c.holds;
      }
    where
      both : {A B : Type 0} {x : A} (p : A × B) → p.0 ≡ x → p ≡ (x, p.1)
      both p e = ap (λ a. (a, p.1)) e

  -- A round over a token.
  pub token_round :
      (fuel : ℕ) (t : Lz77Code) (digits behind : List ℕ) (s : Machine)
      → IsToken t
      → ReachesBack t (length s.output)
      → length s.output - drained < max_internal_buffer
      → coder.eob.code.width ≤ length behind
      → TokenDigits lit dist t digits
      → Holds all (coder.eob.code.width + 7) (digits ++ behind) s.reader
      → TokenRound fuel t behind s
  token_round fuel (literal byte) digits behind s limits reach room enough p holds =
      literal_round fuel byte p.0 behind s limits room
        (omega (arith, length-append {0} (digits_of p.0) behind))
        (subst (λ l. Holds all (coder.eob.code.width + 7) (l ++ behind) s.reader) p.1 holds)
  token_round fuel (pointer len distance) digits behind s limits reach room enough p holds =
      pointer_round fuel len distance digits behind s limits reach room enough p holds
