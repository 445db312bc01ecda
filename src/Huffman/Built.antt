-- ===== src/Huffman/Built.antt =====
-- The tables that the encoder and the decoder of src/huffman.rs build from the same code lengths.
use mathlib.Core.Option
use mathlib.Core.Path.{subst}
use native.Mathlib.Nat.{mod-eq_of_lt}
use noflate.Base.{
  ℕ, zero, suc, ◌+◌, ◌-◌, ◌*◌, ◌%◌, ◌^◌, ◌≤◌, ◌<◌, ◌≡◌, sym, ap, ◌∙◌, inl, inr, Option, some, List,
  [], ◌∷◌, length, length-set, length-replicate, get_elem?, get_elem?_lt, get_elem?-set_cases, set,
  replicate, arith, Bool, true, false, ltb, if◌then◌else◌, u16, ◌<<<◌, bit_or,
}
use noflate.Base.Bits.{two_pow_le, two_pow_add, or_shifted, or_comm}
use noflate.Error.{Result, ok, err, invalid_data, code_length_exceeds_15}
use noflate.Symbol.{max_bits}
use noflate.Huffman.Codes.{reverse_bits, sort_by_key, used_symbols, width_of}
use noflate.Huffman.Digits.{rev, reverse_bits-rev, times}
use noflate.Huffman.Encoder.{Code, HuffmanEncoder, empty, assign_codes}
use noflate.Huffman.Encoder
use noflate.Huffman.Decoder.{HuffmanDecoder, vacant, maximum, fill_slots, fill_table, is_symbol}
use noflate.Huffman.Decoder
use noflate.Huffman.Decoder.Table.{bind-ok, from_code_lengths-IsBuilt}
use noflate.Huffman.Decoder.Canonical.{
  HasCode, HasCode-Kept, Filled, Slot-Kept, Kept, entry-Kept, entry-Filled, entry-below,
  entry-HasCode,
}
use noflate.Huffman.Sorted.{Ascending, entries-Ascending}

-- Each code of the encoder stands in the table of the decoder.
abbrev pub Matches : List ℕ → ℕ → List Code → Type 0
Matches table widest codes =
    (s : ℕ) (c : Code)
    → get_elem? codes s ≡ some c
    → 1 ≤ c.width
    → HasCode table widest c.width c.code_bits s

Matches-set :
    {table t : List ℕ} {widest symbol : ℕ} (codes : List Code) (entry : Code)
    → widest ≤ 15
    → length codes ≤ 2048
    → Kept table t
    → HasCode t widest entry.width entry.code_bits symbol
    → Matches table widest codes
    → Matches t widest (set codes symbol entry)
Matches-set {t = t} {widest = widest} {symbol = symbol} codes entry narrow short kept own m s c at
      used =
    elim (get_elem?-set_cases codes symbol s entry c at) [
      | inl e ↦
          subst (λ (k : Code). HasCode t widest k.width k.code_bits s) e.1
            (subst (HasCode t widest entry.width entry.code_bits) e.0 own)
      | inr old ↦
          let h = m s c old used in
          HasCode-Kept kept (omega (arith, h.inside)) (omega (arith, get_elem?_lt codes s c old)) h
    ]

-- A symbol's entry in the table.
entry_value :
    (symbol width : ℕ)
    → symbol < 2048
    → width ≤ 15
    → bit_or (u16 (symbol <<< 5)) width ≡ width + symbol * 32
entry_value symbol width low narrow =
    let cast : symbol * 32 % 2 ^ 16 ≡ symbol * 32 = omega arith in
    rw cast (or_comm (symbol * 32) width ∙ or_shifted 5 width symbol (omega arith))

-- The next code at a width: no larger than 2 ^ width, and in the place where the last one ends.
next_code :
    (code previous width widest : ℕ)
    → code ≤ 2 ^ previous
    → previous ≤ width
    → width ≤ widest
    → (code * 2 ^ (width - previous) ≤ 2 ^ width)
      × (code * 2 ^ (width - previous) * 2 ^ (widest - width) ≡ code * 2 ^ (widest - previous))
next_code code previous width widest h rising inside =
    let e : 2 ^ previous * 2 ^ (width - previous) ≡ 2 ^ width =
      sym (two_pow_add previous (width - previous)) ∙ ap (λ (k : ℕ). 2 ^ k) (omega arith) in
    let f : 2 ^ (width - previous) * 2 ^ (widest - width) ≡ 2 ^ (widest - previous) =
      sym (two_pow_add (width - previous) (widest - width)) ∙ ap (λ (k : ℕ). 2 ^ k) (omega arith) in
    (
      omega (arith, e, times code (2 ^ previous) (2 ^ (width - previous)) h),
      assoc code (2 ^ (width - previous)) (2 ^ (widest - width)) ∙ ap (λ (k : ℕ). code * k) f,
    )
  where
    assoc : (a b c : ℕ) → a * b * c ≡ a * (b * c)
    assoc a b c = grind arith

-- A step of the encoder's loop.
pub assign_codes_step :
    (symbol width code previous : ℕ) (rest : List (ℕ × ℕ)) (codes codes' : List Code)
    → assign_codes ((symbol, width) ∷ rest) code previous codes ≡ ok codes'
    → assign_codes rest (u16 (u16 (code <<< (width - previous)) + 1)) width (
        set codes symbol (record {
          width = width;
          code_bits = reverse_bits (u16 (code <<< (width - previous))) width;
        }))
      ≡ ok codes'
unfolding assign_codes
assign_codes_step symbol width code previous rest codes codes' e = guarded (ltb max_bits width) e
  where
    guarded :
        (b : Bool) {x : Result (List Code)}
        → (if b then err (invalid_data code_length_exceeds_15) else x) ≡ ok codes'
        → x ≡ ok codes'
    guarded true e = cc
    guarded false e = e

-- The two loops over the same entries, from tables that match on.
build-Matches :
    (widest : ℕ) (eob : Option ℕ) (entries : List (ℕ × ℕ)) (code previous safely safely' : ℕ)
    (table t : List ℕ) (codes codes' : List Code)
    → widest ≤ 15
    → previous ≤ widest
    → code ≤ 2 ^ previous
    → length codes ≤ 2048
    → Ascending widest previous entries
    → Filled table widest previous (code * 2 ^ (widest - previous))
    → Matches table widest codes
    → fill_table widest eob entries code previous safely table ≡ ok (t, safely')
    → assign_codes entries code previous codes ≡ ok codes'
    → Matches t widest codes'
unfolding fill_table assign_codes
build-Matches widest eob [] code previous safely safely' table t codes codes' narrow in_table small
      short rising filled m e a =
    let same : table ≡ t = cc in
    let same_codes : codes ≡ codes' = cc in
    subst (λ l. Matches t widest l) same_codes (subst (λ l. Matches l widest codes) same m)
build-Matches widest eob ((symbol, width) ∷ rest) code previous safely safely' table t codes codes'
      narrow in_table small short rising filled m e a =
    let i = rising.0 in
    let inside = i.inside in
    let next = next_code code previous width widest small rising.1 inside in
    let power = two_pow_le width 15 (omega arith) in
    let shifted = u16 (code <<< (width - previous)) in
    let cast : shifted ≡ code * 2 ^ (width - previous) = mod-eq_of_lt (omega (arith, next.0)) in
    let digits : reverse_bits shifted width ≡ rev width shifted =
      reverse_bits-rev shifted width (omega arith) in
    let (table', done, more) =
      bind-ok
        (fill_slots (2 ^ (widest - width)) 0 width (reverse_bits shifted width)
          (bit_or (u16 (symbol <<< 5)) width) table)
        (λ (table' : List ℕ).
          fill_table widest eob rest (u16 (shifted + 1)) width
            (if is_symbol eob symbol then width else safely) table')
        (t, safely') e in
    let done' : fill_slots (2 ^ (widest - width)) 0 width (rev width shifted) (width + symbol * 32)
          table
        ≡ ok table' =
      rw (← digits, ← entry_value symbol width i.low (omega arith)) done in
    let before : Filled table widest width (shifted * 2 ^ (widest - width)) = λ j h below.
      Slot-Kept {table = table} {t = table} (λ k x p q. p) rising.1
        (filled j h (omega (arith, next.1, ap (λ (k : ℕ). k * 2 ^ (widest - width)) cast))) in
    let fresh =
      entry-below table table' widest width shifted symbol narrow inside i.positive i.low before
        done' (omega (arith, next.0)) in
    let one : u16 (shifted + 1) ≡ shifted + 1 = mod-eq_of_lt (omega arith) in
    build-Matches widest eob rest (u16 (shifted + 1)) width
      (if is_symbol eob symbol then width else safely) safely' table' t
      (set codes symbol (record { width = width; code_bits = reverse_bits shifted width })) codes'
      narrow inside (omega arith)
      (omega (
        arith,
        length-set codes symbol (record { width = width; code_bits = reverse_bits shifted width }),
      ))
      rising.2
      (subst (λ (k : ℕ). Filled table' widest width (k * 2 ^ (widest - width))) (sym one)
        (entry-Filled table table' widest width shifted symbol narrow inside i.positive i.low before
          done'))
      (Matches-set codes (record { width = width; code_bits = reverse_bits shifted width }) narrow
        short
        (entry-Kept table table' widest width shifted symbol narrow inside i.positive i.low before
          done')
        (subst (λ (k : ℕ). HasCode table' widest width k symbol) (sym digits)
          (entry-HasCode table table' widest width shifted symbol narrow inside i.positive i.low
            before done' fresh))
        m)
      more (assign_codes_step symbol width code previous rest codes codes' a)

replicate_width : (n s : ℕ) (c : Code) → get_elem? (replicate n empty) s ≡ some c → c.width ≡ 0
replicate_width zero s c at = cc
replicate_width (suc n) zero c at = ap (λ (k : Code). k.width) (sym (some_inj at))
  where
    some_inj : {a b : Code} → some a ≡ some b → a ≡ b
    some_inj e = cc
replicate_width (suc n) (suc s) c at = replicate_width n s c at

-- The codes of an encoder are those of a decoder from the same lengths.
pub tables-Matches :
    (lengths : List ℕ) (safely eob : Option ℕ) (enc : HuffmanEncoder) (d : HuffmanDecoder)
    → length lengths ≤ 2048
    → Encoder.from_code_lengths lengths ≡ ok enc
    → Decoder.from_code_lengths lengths safely eob ≡ ok d
    → Matches d.table d.max_bits enc.codes
unfolding Encoder.from_code_lengths
tables-Matches lengths safely eob enc d short made built =
    let b = from_code_lengths-IsBuilt lengths safely eob d built in
    let entries = sort_by_key width_of (used_symbols 0 lengths) in
    let (codes, assigned, same) =
      bind-ok (assign_codes entries 0 0 (replicate (length lengths) empty))
        (λ codes. ok (record { codes = codes })) enc made in
    subst (λ (k : ℕ). Matches d.table k enc.codes) (sym b.widest)
      (subst (λ (e : HuffmanEncoder). Matches d.table (maximum lengths) e.codes) (inj same)
        (build-Matches (maximum lengths) eob entries 0 0 (Option.get_or safely (maximum lengths))
          b.last_safely (replicate (2 ^ maximum lengths) vacant) d.table
          (replicate (length lengths) empty) codes b.wide (omega arith) (omega arith)
          (omega (arith, length-replicate (length lengths) empty)) (entries-Ascending lengths short)
          (λ i h below. absurd (omega arith))
          (λ s c at used. absurd (omega (arith, replicate_width (length lengths) s c at))) b.filled
          assigned))
  where
    inj : {a b : HuffmanEncoder} → ok a ≡ ok b → a ≡ b
    inj e = cc
