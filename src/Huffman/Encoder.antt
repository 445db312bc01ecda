-- ===== src/Huffman/Encoder.antt =====
-- `HuffmanEncoder` of src/huffman.rs.
use noflate.Base.{
  ℕ, ◌+◌, ◌-◌, Option, none, some, List, [], ◌∷◌, length, get_elem?, set, replicate, ltb,
  if◌then◌else◌, u16, ◌<<<◌,
}
use mathlib.Core.Option
use noflate.Error.{Result, ok, err, panic, ◌>>=◌, invalid_data, code_length_exceeds_15}
use noflate.Symbol.{max_bits}
use noflate.Bit.Writer.{Writer, write_bits}
use noflate.Huffman.Codes.{reverse_bits, sort_by_key, used_symbols, width_of}

pub record Code : Type 0 where
  pub width : ℕ
  pub code_bits : ℕ

abbrev pub empty : Code
empty = record { width = 0; code_bits = 0 }

pub record HuffmanEncoder : Type 0 where
  pub codes : List Code

-- The loop over the sorted symbols. `codes[symbol]` is in range: `used_symbols` gives indices of it.
unfoldable pub assign_codes : List (ℕ × ℕ) → ℕ → ℕ → List Code → Result (List Code)
assign_codes [] code previous_width codes = ok codes
assign_codes ((symbol, width) ∷ rest) code previous_width codes =
    let shifted = u16 (code <<< (width - previous_width)) in
    let entry : Code = record { width = width; code_bits = reverse_bits shifted width } in
    let more = assign_codes rest (u16 (shifted + 1)) width (set codes symbol entry) in
    if ltb max_bits width then err (invalid_data code_length_exceeds_15) else more

unfoldable pub from_code_lengths : List ℕ → Result HuffmanEncoder
unfolding assign_codes sort_by_key used_symbols reverse_bits
from_code_lengths lengths = do
  let symbols = sort_by_key width_of (used_symbols 0 lengths)
  codes ← assign_codes symbols 0 0 (replicate (length lengths) empty)
  ok (record { codes = codes })

unfoldable pub encode : HuffmanEncoder → ℕ → Writer → Result Writer
encode enc symbol w = elim (get_elem? enc.codes symbol) [
  | none ↦ panic
  | some code ↦ ok (write_bits code.width code.code_bits w)
]

unfoldable pub code_width : HuffmanEncoder → ℕ → ℕ
code_width enc symbol =
    Option.get_or (Option.map (λ (c : Code). c.width) (get_elem? enc.codes symbol)) 0

-- `rposition`, with the index of the first code.
last_used : ℕ → List Code → Option ℕ
last_used i [] = none
last_used i (c ∷ cs) = elim (last_used (i + 1) cs) [
  | some j ↦ some j
  | none ↦ if ltb 0 c.width then some i else none
]

unfoldable pub used_max_symbol : HuffmanEncoder → Option ℕ
unfolding last_used
used_max_symbol enc = Option.map u16 (last_used 0 enc.codes)
