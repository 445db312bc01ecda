-- ===== src/Decode/Body/Tokens.antt =====
-- The loop over the symbols of a block in src/decode.rs, on the digits of a token.
use noflate.Base.{
  ℕ, suc, ◌+◌, ◌-◌, ◌^◌, ◌≤◌, ◌<◌, ◌≡◌, refl, sym, ap, ◌∙◌, Bool, false, some, List, ◌++◌, length,
  length-append, get_elem?, All, All-get_elem?, arith, ◌==◌, le→leb, lt→leb_false, drop-append_self,
  take-append_self, take, drop,
}
use mathlib.Core.Path.{subst}
use native.Mathlib.Nat.{mod-eq_of_lt}
use noflate.Error.{ok}
use noflate.Exec.{Exec}
use noflate.Symbol.{EncodedSymbol, end_of_block}
use noflate.Symbol.Laws.{Decodes, plain, with_extra}
use noflate.Bit.View.{bits, value, value-bits, length-bits}
use noflate.Bit.Reader.{Reader, snapshot, available_bits, read_bits}
use noflate.Bit.Reads.{stream, IsValid}
use noflate.Bit.Refine.{read_bits-IsRead}
use noflate.Huffman.Encoder.{HuffmanEncoder}
use noflate.Huffman.Decoder.{HuffmanDecoder, decode}
use noflate.Bit.Kept.{read_bits-IsKept}
use noflate.Huffman.RoundTrip.{IsPair, decode-IsLoaded}
use noflate.Encode.Symbols.{HasSymbol, digits_of, extra_digits}
use noflate.Decode.State.{Machine, StepOutcome, on_reader, or_roll_back}
use noflate.Decode.Body.{symbol_rounds, use_symbol, extra, max_internal_buffer}

-- The encoders and the decoders of a block agree, and the decoders look first at no more bits than
-- the end of the block has.
pub record IsCoder (lit dist : HuffmanEncoder) (ld dd : HuffmanDecoder) : Type 0 where
  pub lits : IsPair lit ld
  pub dists : IsPair dist dd
  pub eob : HasSymbol lit end_of_block
  pub lit_looks : ld.safely_peek_bits ≤ eob.code.width
  pub dist_looks : dd.safely_peek_bits ≤ eob.code.width

-- A reader of `all` that holds these bits, with at most `most` of them buffered.
pub record Holds (all : List ℕ) (most : ℕ) (digits : List ℕ) (r : Reader) : Type 0 where
  pub valid : IsValid r
  pub there : stream r ≡ digits
  pub input : r.input ≡ all
  pub few : r.bit_count ≤ most

pub Holds-more :
    {all digits : List ℕ} {most more : ℕ} {r : Reader}
    → most ≤ more
    → Holds all most digits r
    → Holds all more digits r
Holds-more le h = record {
  valid = h.valid;
  there = h.there;
  input = h.input;
  few = omega (arith, h.few);
}

-- The decoder looks first at `looks` bits at most.
pub decode-Holds :
    {enc : HuffmanEncoder} {d : HuffmanDecoder} (p : IsPair enc d) {s : ℕ} (h : HasSymbol enc s)
    (all : List ℕ) (looks : ℕ) (behind : List ℕ) (r : Reader)
    → d.safely_peek_bits ≤ looks
    → d.safely_peek_bits ≤ length (digits_of h ++ behind)
    → Holds all (looks + 7) (digits_of h ++ behind) r
    → ((decode d r).0 ≡ ok s)
      × Holds all (looks + 7) behind (decode d r).1
      × (looks ≤ h.code.width → (decode d r).1.bit_count ≤ 7)
decode-Holds p {s} h all looks behind r low enough holds =
    let out =
      decode-IsLoaded p s h.code r behind h.there h.used holds.valid holds.there
        (rw holds.there enough) in
    let got = out.decoded in
    (
      got.returns,
      record {
        valid = got.valid;
        there = got.rest;
        input = out.input ∙ holds.input;
        few = omega (arith, out.few, holds.few);
      },
      λ wide. omega (arith, out.few, holds.few),
    )

pub read_bits-Holds :
    (n x : ℕ) (all : List ℕ) (most : ℕ) (behind : List ℕ) (r : Reader)
    → n ≤ 16
    → 7 ≤ most
    → x < 2 ^ n
    → Holds all most (bits n x ++ behind) r
    → ((read_bits n r).0 ≡ ok x) × Holds all most behind (read_bits n r).1
read_bits-Holds n x all most behind r small room fits holds =
    let len = length-append {0} (bits n x) behind in
    let there : n ≤ length (stream r) =
      omega (arith, ap length holds.there, len, length-bits n x) in
    let out = read_bits-IsRead n r holds.valid small there in
    let kept = read_bits-IsKept n r holds.valid small there in
    let first : take n (bits n x ++ behind) ≡ bits n x =
      ap (λ k. take k (bits n x ++ behind)) (sym (length-bits n x))
      ∙ take-append_self (bits n x) behind in
    let after : drop n (bits n x ++ behind) ≡ behind =
      ap (λ k. drop k (bits n x ++ behind)) (sym (length-bits n x))
      ∙ drop-append_self (bits n x) behind in
    (
      out.returns
          ∙ ap (λ l. ok (value l)) (ap (take n) holds.there ∙ first)
          ∙ ap ok (value-bits n x ∙ mod-eq_of_lt fits),
      record {
        valid = out.valid;
        there = out.rest ∙ ap (drop n) holds.there ∙ after;
        input = kept.0 ∙ holds.input;
        few = omega (arith, kept.1, holds.few);
      },
    )

module _ (drained : ℕ) (is_final : Bool) (ld dd : HuffmanDecoder) where
  -- A round that decodes a symbol.
  pub round_decodes :
      (fuel symbol : ℕ) (s : Machine)
      → length s.output - drained < max_internal_buffer
      → ld.safely_peek_bits ≤ available_bits s.reader
      → (decode ld s.reader).0 ≡ ok symbol
      → symbol_rounds drained is_final ld dd (suc fuel) s
        ≡ use_symbol drained is_final ld dd
            (snapshot s.reader)
            (symbol_rounds drained is_final ld dd fuel)
            symbol
            (record s { reader = (decode ld s.reader).1 })
  unfolding symbol_rounds or_roll_back on_reader
  round_decodes fuel symbol s room enough got =
      rw
        (
          lt→leb_false max_internal_buffer (length s.output - drained) room,
          le→leb ld.safely_peek_bits (available_bits s.reader) enough,
          got,
        )
        refl

-- A call before the rest of a step, when it returns.
pub or_roll_back_ok :
    {A : Type 0} (wait : Exec Machine StepOutcome) (m : Exec Machine A)
    (rest : A → Exec Machine StepOutcome) (s s' : Machine) (a : A)
    → m s ≡ (ok a, s')
    → or_roll_back wait m rest s ≡ rest a s'
unfolding or_roll_back
or_roll_back_ok wait m rest s s' a e = rw e refl

-- The extra bits of a symbol, read.
pub record ExtraRead (all : List ℕ) (most : ℕ) (table : List (ℕ × ℕ)) (first n : ℕ)
    (s : EncodedSymbol) (behind : List ℕ) (m : Machine) : Type 0 where
  pub base : ℕ
  pub width : ℕ
  pub read : ℕ
  pub reader : Reader
  pub above : first ≤ s.code
  pub entry : get_elem? table (s.code - first) ≡ some (base, width)
  pub returns : extra width m ≡ (ok read, record m { reader = reader })
  pub holds : Holds all most behind reader
  pub sum : base + read ≡ n

pub extra-ExtraRead :
    (all : List ℕ) (most : ℕ) (table : List (ℕ × ℕ)) (first n : ℕ) (s : EncodedSymbol)
    (behind : List ℕ) (m : Machine)
    → All (λ (e : ℕ × ℕ). e.1 ≤ 13) table
    → 7 ≤ most
    → Decodes table first n s
    → Holds all most (extra_digits s.extra ++ behind) m.reader
    → ExtraRead all most table first n s behind m
unfolding on_reader
extra-ExtraRead all most table first n s behind m narrow room
      (plain {base = base} above at nothing sum) h =
    record {
      base = base;
      width = 0;
      read = 0;
      reader = m.reader;
      above = above;
      entry = at;
      returns = refl;
      holds = subst (λ e. Holds all most (extra_digits e ++ behind) m.reader) nothing h;
      sum = omega arith;
    }
extra-ExtraRead all most table first n s behind m narrow room
      (with_extra {base = base} {bits = width} {value = x} above at positive some_extra fits sum)
      h =
    let below =
      All-get_elem? (λ (e : ℕ × ℕ). e.1 ≤ 13) table (s.code - first) (base, width) narrow at in
    let out =
      read_bits-Holds width x all most behind m.reader (omega arith) room fits
        (subst (λ e. Holds all most (extra_digits e ++ behind) m.reader) some_extra h) in
    let some_bits : (width == 0) ≡ false = ground arith in
    record {
      base = base;
      width = width;
      read = x;
      reader = (read_bits width m.reader).1;
      above = above;
      entry = at;
      returns = rw (some_bits, out.0) refl;
      holds = out.1;
      sum = sum;
    }
