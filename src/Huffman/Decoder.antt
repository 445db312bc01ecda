-- ===== src/Huffman/Decoder.antt =====
-- `HuffmanDecoder` of src/huffman.rs: a lookup table over the next `max_bits` bits.
pub mod Table
pub mod Slots
pub mod Canonical
pub mod Outcome
use mathlib.Core.Option
use noflate.Base.{
  ℕ, zero, suc, ◌+◌, ◌-◌, ◌^◌, min, max, Bool, false, not, ◌&&◌, ◌||◌, Option, none, some, List, [],
  ◌∷◌, get_elem?, set, replicate, leb, ltb, ◌==◌, if◌then◌else◌, u16, ◌<<<◌, ◌>>>◌, bit_and, bit_or,
}
use noflate.Error.{
  Result, ok, err, panic, out_of_fuel, invalid_data, table_is_empty, too_many_bits,
  conflicting_codes, invalid_coded_stream,
}
use noflate.Error
use noflate.Exec.{Exec, ◌>>=◌, ◌>>◌, pure}
use noflate.Symbol
use noflate.Bit.Reader.{Reader, peek_bits, skip_bits}
use noflate.Huffman.Codes.{reverse_bits, sort_by_key, used_symbols, width_of}

-- `u16::MAX`, an empty slot.
abbrev pub vacant : ℕ
vacant = 65535

pub record HuffmanDecoder : Type 0 where
  pub table : List ℕ
  pub safely_peek_bits : ℕ
  pub max_bits : ℕ

abbrev pub maximum : List ℕ → ℕ
maximum [] = 0
maximum (x ∷ xs) = max x (maximum xs)

-- The loop over `padding`, with `n` rounds left.
pub fill_slots : ℕ → ℕ → ℕ → ℕ → ℕ → List ℕ → Result (List ℕ)
fill_slots zero padding width reversed value table = ok table
fill_slots (suc n) padding width reversed value table =
    let index = bit_or (u16 (u16 padding <<< width)) reversed in
    let more = fill_slots n (padding + 1) width reversed value (set table index value) in
    elim (get_elem? table index) [
      | none ↦ panic
      | some slot ↦ if slot == vacant then more else err (invalid_data conflicting_codes)
    ]

abbrev pub is_symbol : Option ℕ → ℕ → Bool
is_symbol none symbol = false
is_symbol (some s) symbol = s == symbol

-- The loop over the sorted entries; the result is the table and `actual_safely_peek`.
unfoldable pub fill_table : ℕ → Option ℕ → List (ℕ × ℕ) → ℕ → ℕ → ℕ → List ℕ → Result (List ℕ × ℕ)
unfolding fill_slots
fill_table widest eob [] code previous_width safely table = ok (table, safely)
fill_table widest eob ((symbol, width) ∷ rest) code previous_width safely table =
    let shifted = u16 (code <<< (width - previous_width)) in
    let reversed = reverse_bits shifted width in
    let value = bit_or (u16 (symbol <<< 5)) width in
    let safely' = if is_symbol eob symbol then width else safely in
    let more =
      λ (table' : List ℕ). fill_table widest eob rest (u16 (shifted + 1)) width safely' table' in
    Error.◌>>=◌ (fill_slots (2 ^ (widest - width)) 0 width reversed value table) more

unfoldable pub from_code_lengths : List ℕ → Option ℕ → Option ℕ → Result HuffmanDecoder
unfolding fill_table sort_by_key used_symbols reverse_bits
from_code_lengths lengths safely eob =
    let widest = maximum lengths in
    let entries = sort_by_key width_of (used_symbols 0 lengths) in
    if widest == 0
    then err (invalid_data table_is_empty)
    else if ltb Symbol.max_bits widest
    then err (invalid_data too_many_bits)
    else Error.◌>>=◌
        (fill_table widest eob entries 0 0 (Option.get_or safely widest)
          (replicate (2 ^ widest) vacant))
        (λ filled. ok (record {
          table = filled.0;
          safely_peek_bits = min widest (max filled.1 1);
          max_bits = widest;
        }))

-- What `decode` does with a slot of the table, after a look at `peeked` bits; `again` is the loop.
unfoldable pub use_slot : HuffmanDecoder → ℕ → (ℕ → Exec Reader ℕ) → Option ℕ → Exec Reader ℕ
use_slot d peeked again none r = (panic, r)
use_slot d peeked again (some value) r =
    let width = bit_and value 31 in
    let next = again width r in
    if leb width peeked && not (value == vacant)
    then (do skip_bits width; pure (value >>> 5)) r
    else if ltb d.max_bits width || (value == vacant)
    then (err (invalid_data invalid_coded_stream), r)
    else next

-- The loop of `decode`. A round looks at more bits than the one before, and at 15 at most: 16 rounds
-- are enough.
unfoldable pub decode_loop : ℕ → HuffmanDecoder → ℕ → Exec Reader ℕ
unfolding use_slot
decode_loop zero d peeked r = (out_of_fuel, r)
decode_loop (suc fuel) d peeked r =
    (do index ← peek_bits peeked; use_slot d peeked (decode_loop fuel d) (get_elem? d.table index))
      r

unfoldable pub decode : HuffmanDecoder → Exec Reader ℕ
unfolding decode_loop use_slot
decode d = decode_loop 16 d d.safely_peek_bits
