-- ===== src/Encode/Dynamic.antt =====
-- The dynamic blocks that src/encode.rs writes.
pub mod Expand
pub mod RunCodes
pub mod RunLengths
use mathlib.Core.Option
use noflate.Base.{
  ℕ, zero, suc, ◌+◌, ◌-◌, min, max, Bool, true, false, List, [], ◌∷◌, ◌++◌, foldl, get_or, set,
  replicate, take, reverse, leb, ltb, ◌==◌, if◌then◌else◌, u8, u16,
}
use noflate.Error.{Result, ok, ◌>>=◌}
use noflate.Symbol.{
  length_to_symbol, distance_to_symbol, end_of_block, max_bits, bitwidth_code_order,
}
use noflate.Bit.Writer.{Writer, write_bit, write_bits}
use noflate.Huffman.Encoder.{HuffmanEncoder, from_code_lengths, encode, code_width, used_max_symbol}
use noflate.Huffman.Lengths.{length_limited_code_lengths}
use noflate.Lz77.{Lz77Code, literal, pointer}
use noflate.Encode.Blocks.{write_symbols, end_block}

-- `frequencies[symbol] += 1`
abbrev bump : ℕ → List ℕ → List ℕ
bump i xs = set xs i (get_or xs i 0 + 1)

pub record Frequencies : Type 0 where
  pub lit : List ℕ
  pub dist : List ℕ
  pub has_distance : Bool

count_symbols : List Lz77Code → Frequencies → Result Frequencies
count_symbols [] f = ok f
count_symbols (literal byte ∷ symbols) f =
    count_symbols symbols (record f { lit = bump byte f.lit })
count_symbols (pointer len distance ∷ symbols) f = do
  len_sym ← length_to_symbol (u16 len)
  dist_sym ← distance_to_symbol (u16 distance)
  count_symbols symbols (record f {
    lit = bump len_sym.code f.lit;
    dist = bump dist_sym.code f.dist;
    has_distance = true;
  })

-- The counts of a chunk, with the end of block and at least one distance.
frequencies : List Lz77Code → Result Frequencies
unfolding count_symbols
frequencies symbols = do
  f ←
      count_symbols symbols
        (record { lit = replicate 286 0; dist = replicate 30 0; has_distance = false })
  ok (record f {
    lit = set f.lit end_of_block 1;
    dist = if f.has_distance then f.dist else set f.dist 0 1;
  })

pub record RunLength : Type 0 where
  pub run_value : ℕ
  pub count : ℕ

-- The loop over the widths; the runs come last first.
pub runs : List ℕ → List RunLength → List RunLength
runs [] acc = acc
runs (width ∷ widths) [] = runs widths (record { run_value = width; count = 1 } ∷ [])
runs (width ∷ widths) (run ∷ acc) = runs widths (
    if run.run_value == width
    then record run { count = run.count + 1 } ∷ acc
    else record { run_value = width; count = 1 } ∷ (run ∷ acc))

-- The loop of a run of zeros, and what it leaves.
pub zero_codes : ℕ → ℕ → List (ℕ × ℕ × ℕ)
zero_codes zero count = []
zero_codes (suc fuel) count =
    let amount = min 138 count in
    let more = (18, 7, u8 amount - 11) ∷ zero_codes fuel (count - amount) in
    if leb 11 count
    then more
    else if leb 3 count
    then (17, 3, u8 count - 3) ∷ []
    else replicate count (0, 0, 0)

-- The loop over the repeats of a width, and what it leaves.
pub repeat_codes : ℕ → ℕ → ℕ → List (ℕ × ℕ × ℕ)
repeat_codes zero width count = []
repeat_codes (suc fuel) width count =
    let amount = min 6 count in
    let more = (16, 2, u8 amount - 3) ∷ repeat_codes fuel width (count - amount) in
    if leb 3 count then more else replicate count (width, 0, 0)

pub run_codes : RunLength → List (ℕ × ℕ × ℕ)
run_codes run =
    if run.run_value == 0
    then zero_codes (run.count + 1) run.count
    else (run.run_value, 0, 0) ∷ repeat_codes run.count run.run_value (run.count - 1)

abbrev pub all_codes : List RunLength → List (ℕ × ℕ × ℕ)
all_codes [] = []
all_codes (run ∷ rest) = run_codes run ++ all_codes rest

-- `(from..from + n).map(|symbol| encoder.code_width(symbol as u16))`
abbrev pub widths_from : HuffmanEncoder → ℕ → ℕ → List ℕ
widths_from enc i zero = []
widths_from enc i (suc n) = code_width enc (u16 i) ∷ widths_from enc (i + 1) n

unfoldable pub build_bitwidth_codes : HuffmanEncoder → ℕ → HuffmanEncoder → ℕ → List (ℕ × ℕ × ℕ)
unfolding runs run_codes zero_codes repeat_codes
build_bitwidth_codes lit literal_code_count dist distance_code_count = all_codes (
    reverse
      (runs (widths_from lit 0 literal_code_count ++ widths_from dist 0 distance_code_count) []))

-- `BITWIDTH_CODE_ORDER.iter().rposition(…).map_or(0, |index| index + 1)`, at least 4.
last_position : HuffmanEncoder → ℕ → List ℕ → ℕ
last_position enc i [] = 0
last_position enc i (symbol ∷ symbols) =
    let later = last_position enc (i + 1) symbols in
    if ltb 0 later then later else if ltb 0 (code_width enc symbol) then i + 1 else 0

bitwidth_code_count : HuffmanEncoder → ℕ
unfolding last_position
bitwidth_code_count enc = max 4 (last_position enc 0 bitwidth_code_order)

write_widths : HuffmanEncoder → List ℕ → Writer → Writer
write_widths enc [] w = w
write_widths enc (symbol ∷ symbols) w =
    write_widths enc symbols (write_bits 3 (code_width enc symbol) w)

write_codes : HuffmanEncoder → List (ℕ × ℕ × ℕ) → Writer → Result Writer
write_codes enc [] w = ok w
write_codes enc ((code, extra_bits, extra) ∷ codes) w = do
  w' ← encode enc code w
  write_codes enc codes (if ltb 0 extra_bits then write_bits extra_bits extra w' else w')

-- `used_max_symbol().unwrap_or(0) + 1`, at least `least`.
abbrev code_count : ℕ → HuffmanEncoder → ℕ
code_count least enc = max least (Option.get_or (used_max_symbol enc) 0 + 1)

-- The block's header and the code lengths.
write_header : Bool → HuffmanEncoder → HuffmanEncoder → Writer → Result Writer
unfolding write_widths write_codes bitwidth_code_count build_bitwidth_codes
write_header is_final lit dist w = do
  let literals = code_count 257 lit
  let distances = code_count 1 dist
  let codes = build_bitwidth_codes lit literals dist distances
  let counts = foldl (λ f c. bump c.0 f) (replicate 19 0) codes
  bitwidth ← from_code_lengths (length_limited_code_lengths counts 7)
  let widths = bitwidth_code_count bitwidth
  let w₁ = write_bits 2 2 (write_bit is_final w)
  let w₂ =
      write_bits 4 (widths - 4) (write_bits 5 (distances - 1) (write_bits 5 (literals - 257) w₁))
  write_codes bitwidth codes (write_widths bitwidth (take widths bitwidth_code_order) w₂)

unfoldable pub emit_dynamic : Bool → List Lz77Code → Writer → Result Writer
unfolding frequencies write_header write_symbols
emit_dynamic is_final symbols w = do
  f ← frequencies symbols
  lit ← from_code_lengths (length_limited_code_lengths f.lit max_bits)
  dist ← from_code_lengths (length_limited_code_lengths f.dist max_bits)
  w' ← write_header is_final lit dist w
  w'' ← write_symbols lit dist symbols w'
  ok (end_block is_final w'')
