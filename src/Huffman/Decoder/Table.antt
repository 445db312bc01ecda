-- ===== src/Huffman/Decoder/Table.antt =====
-- The table that `HuffmanDecoder::from_code_lengths` of src/huffman.rs builds: its size.
use mathlib.Core.Option
use mathlib.Core.Path.{subst}
use noflate.Base.{
  ℕ, zero, suc, ◌+◌, ◌-◌, ◌^◌, ◌≤◌, ◌≡◌, refl, sym, ap, ◌∙◌, min, max, Bool-cases, inl, inr, Option,
  none, some, List, [], ◌∷◌, arith, length, length-set, length-replicate, get_elem?, set, replicate,
  ◌==◌, ltb, if◌then◌else◌, u16, ◌<<<◌, bit_or,
}
use noflate.Error.{
  Result, ok, err, panic, out_of_fuel, invalid_data, conflicting_codes, table_is_empty,
  too_many_bits,
}
use noflate.Error
use noflate.Symbol
use noflate.Huffman.Codes.{reverse_bits, sort_by_key, used_symbols, width_of}
use noflate.Huffman.Decoder.{
  HuffmanDecoder, vacant, maximum, fill_slots, fill_table, is_symbol, from_code_lengths,
}

-- The widths are at most 15 bits, and the table has a slot for each index of that many bits.
pub record IsTable (d : HuffmanDecoder) : Type 0 where
  pub size : length d.table ≡ 2 ^ d.max_bits
  pub widest : d.max_bits ≤ 15
  pub safely : d.safely_peek_bits ≤ d.max_bits

pub bind-ok :
    {A B : Type 0} (x : Result A) (f : A → Result B) (b : B)
    → Error.◌>>=◌ x f ≡ ok b
    → (a : A) × (x ≡ ok a) × (f a ≡ ok b)
bind-ok (ok a) f b e = (a, refl, e)
bind-ok (err x) f b e = cc
bind-ok panic f b e = cc
bind-ok out_of_fuel f b e = cc

slot : Option ℕ → Result (List ℕ) → Result (List ℕ)
slot none more = panic
slot (some s) more = if s == vacant then more else err (invalid_data conflicting_codes)

slot-ok : (o : Option ℕ) (more : Result (List ℕ)) (t : List ℕ) → slot o more ≡ ok t → more ≡ ok t
unfolding slot
slot-ok none more t e = cc
slot-ok (some s) more t e = elim (Bool-cases (s == vacant)) [
  | inl empty ↦ sym (ap (λ b. if b then more else err (invalid_data conflicting_codes)) empty) ∙ e
  | inr taken ↦ absurd (
      failed t (sym (ap (λ b. if b then more else err (invalid_data conflicting_codes)) taken) ∙ e))
]
  where
    failed : (t : List ℕ) → ¬ (err (invalid_data conflicting_codes) ≡ ok t)
    failed t e = cc

length-fill_slots :
    (n padding width reversed value : ℕ) (table t : List ℕ)
    → fill_slots n padding width reversed value table ≡ ok t
    → length t ≡ length table
unfolding fill_slots slot
length-fill_slots zero padding width reversed value table t e =
    let same : table ≡ t = cc in ap length (sym same)
length-fill_slots (suc n) padding width reversed value table t e =
    let index = bit_or (u16 (u16 padding <<< width)) reversed in
    let more = fill_slots n (padding + 1) width reversed value (set table index value) in
    length-fill_slots n (padding + 1) width reversed value (set table index value) t
      (slot-ok (get_elem? table index) more t (split (get_elem? table index) more t e))
    ∙ length-set table index value
  where
    split :
        (o : Option ℕ) (more : Result (List ℕ)) (t : List ℕ)
        → elim o [
          | none ↦ panic
          | some slot ↦ if slot == vacant then more else err (invalid_data conflicting_codes)
        ]
          ≡ ok t
        → slot o more ≡ ok t
    split none more t e = unfold slot in e
    split (some s) more t e = unfold slot in e

length-fill_table :
    (widest : ℕ) (eob : Option ℕ) (entries : List (ℕ × ℕ)) (code previous_width safely : ℕ)
    (table t : List ℕ) (safely' : ℕ)
    → fill_table widest eob entries code previous_width safely table ≡ ok (t, safely')
    → length t ≡ length table
unfolding fill_table
length-fill_table widest eob [] code previous_width safely table t safely' e =
    let same : table ≡ t = cc in ap length (sym same)
length-fill_table widest eob ((symbol, width) ∷ rest) code previous_width safely table t safely' e =
    let shifted = u16 (code <<< (width - previous_width)) in
    let reversed = reverse_bits shifted width in
    let value = bit_or (u16 (symbol <<< 5)) width in
    let next = if is_symbol eob symbol then width else safely in
    let (table', filled, more) =
      bind-ok (fill_slots (2 ^ (widest - width)) 0 width reversed value table)
        (λ (table' : List ℕ). fill_table widest eob rest (u16 (shifted + 1)) width next table')
        (t, safely') e in
    length-fill_table widest eob rest (u16 (shifted + 1)) width next table' t safely' more
    ∙ length-fill_slots (2 ^ (widest - width)) 0 width reversed value table table' filled

-- What a decoder that `from_code_lengths` builds is made of.
pub record IsBuilt (lengths : List ℕ) (safely eob : Option ℕ) (d : HuffmanDecoder) : Type 0 where
  pub wide : maximum lengths ≤ 15
  pub widest : d.max_bits ≡ maximum lengths
  pub last_safely : ℕ
  pub filled :
      fill_table
        (maximum lengths)
        eob
        (sort_by_key width_of (used_symbols 0 lengths))
        0
        0
        (Option.get_or safely (maximum lengths))
        (replicate (2 ^ maximum lengths) vacant)
      ≡ ok (d.table, last_safely)
  pub looks : d.safely_peek_bits ≡ min (maximum lengths) (max last_safely 1)

pub from_code_lengths-IsBuilt :
    (lengths : List ℕ) (safely eob : Option ℕ) (d : HuffmanDecoder)
    → from_code_lengths lengths safely eob ≡ ok d
    → IsBuilt lengths safely eob d
unfolding from_code_lengths
from_code_lengths-IsBuilt lengths safely eob d e =
    let widest = maximum lengths in
    let entries = sort_by_key width_of (used_symbols 0 lengths) in
    let build =
      Error.◌>>=◌
        (fill_table widest eob entries 0 0 (Option.get_or safely widest)
          (replicate (2 ^ widest) vacant))
        (λ filled. ok (record {
          table = filled.0;
          safely_peek_bits = min widest (max filled.1 1);
          max_bits = widest;
        })) in
    let (wide, built) = guards widest build d e in
    let ((t, n), filled, made) = bind-ok _ _ d built in
    subst (IsBuilt lengths safely eob) (inj made)
      (record { wide = wide; widest = refl; last_safely = n; filled = filled; looks = refl })
  where
    inj : {a b : HuffmanDecoder} → ok a ≡ ok b → a ≡ b
    inj e = cc

    guards :
        (widest : ℕ) (build : Result HuffmanDecoder) (d : HuffmanDecoder)
        → (if widest == 0
            then err (invalid_data table_is_empty)
            else if ltb Symbol.max_bits widest
            then err (invalid_data too_many_bits)
            else build)
          ≡ ok d
        → (widest ≤ 15) × (build ≡ ok d)
    guards widest build d e = ground (arith, e)

-- A decoder that `from_code_lengths` builds has codes of at most 15 bits, looks first at no more bits
-- than its longest code has, and has a table slot for each value of that many bits.
pub from_code_lengths-IsTable :
    (lengths : List ℕ) (safely eob : Option ℕ) (d : HuffmanDecoder)
    → from_code_lengths lengths safely eob ≡ ok d
    → IsTable d
from_code_lengths-IsTable lengths safely eob d e =
    let b = from_code_lengths-IsBuilt lengths safely eob d e in
    let len =
      length-fill_table (maximum lengths) eob (sort_by_key width_of (used_symbols 0 lengths)) 0 0
        (Option.get_or safely (maximum lengths)) (replicate (2 ^ maximum lengths) vacant) d.table
        b.last_safely b.filled in
    record {
      size =
          len
          ∙ length-replicate (2 ^ maximum lengths) vacant
          ∙ ap (λ (k : ℕ). 2 ^ k) (sym b.widest);
      widest = omega (arith, b.wide, b.widest);
      safely = omega (arith, b.looks, b.widest);
    }
