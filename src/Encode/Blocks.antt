-- ===== src/Encode/Blocks.antt =====
-- The blocks that src/encode.rs writes.

use noflate.Base.{
  ℕ, zero, suc, ◌-◌, min, Bool, ◌&&◌, Option, none, some, List, [], ◌∷◌, ◌++◌, length, take, drop,
  ltb, ◌==◌, if◌then◌else◌, u16, le_bytes_16,
}
use noflate.Error.{Result, ok, ◌>>=◌}
use noflate.Symbol.{
  length_to_symbol, distance_to_symbol, end_of_block, max_stored_block, fixed_literal_code_lengths,
  fixed_distance_code_lengths,
}
use noflate.Bit.Writer.{Writer, write_bit, write_bits, align_to_byte, finish}
use noflate.Huffman.Encoder.{HuffmanEncoder, from_code_lengths, encode}
use noflate.Lz77.{Lz77Code, literal, pointer}

-- The header of a stored block: the final bit, the type, and the padding. Then LEN, NLEN and the bytes.
unfoldable pub write_stored : Bool → List ℕ → Writer → Writer
write_stored is_final bytes w =
    let w' = align_to_byte (write_bits 2 0 (write_bit is_final w)) in
    let len = u16 (length bytes) in
    record {
      output = w'.output ++ (le_bytes_16 len ++ (le_bytes_16 (65535 - len) ++ bytes));
      bit_buffer = 0;
      bit_count = 0;
    }

-- The `while offset < total`; `chunk` is what stands from `offset` on. A round takes a byte at least.
unfoldable pub stored_blocks : ℕ → Bool → List ℕ → Writer → Writer
unfolding write_stored
stored_blocks zero is_final chunk w = w
stored_blocks (suc fuel) is_final chunk w =
    let sub_len = min max_stored_block (length chunk) in
    let is_last = sub_len == length chunk in
    let more =
      stored_blocks fuel is_final (drop sub_len chunk)
        (write_stored (is_final && is_last) (take sub_len chunk) w) in
    if ltb 0 (length chunk) then more else w

-- `emit_stored_chunk`: an empty chunk is one empty block.
unfoldable pub emit_stored : Bool → List ℕ → Writer → Writer
unfolding stored_blocks write_stored
emit_stored is_final chunk w =
    if length chunk == 0
    then write_stored is_final [] w
    else stored_blocks (length chunk) is_final chunk w

-- `if let Some((bits, extra)) = symbol.extra { w.write_bits(bits, extra) }`
unfoldable pub write_extra : Option (ℕ × ℕ) → Writer → Writer
write_extra none w = w
write_extra (some (n, b)) w = write_bits n b w

unfoldable pub write_symbol : HuffmanEncoder → HuffmanEncoder → Lz77Code → Writer → Result Writer
unfolding write_extra
write_symbol lit dist (literal byte) w = encode lit byte w
write_symbol lit dist (pointer len distance) w = do
  len_sym ← length_to_symbol (u16 len)
  w₁ ← encode lit len_sym.code w
  dist_sym ← distance_to_symbol (u16 distance)
  w₂ ← encode dist dist_sym.code (write_extra len_sym.extra w₁)
  ok (write_extra dist_sym.extra w₂)

unfoldable pub write_symbols :
    HuffmanEncoder → HuffmanEncoder → List Lz77Code → Writer → Result Writer
unfolding write_symbol
write_symbols lit dist [] w = encode lit end_of_block w
write_symbols lit dist (symbol ∷ symbols) w = do
  w' ← write_symbol lit dist symbol w
  write_symbols lit dist symbols w'

-- The end of a block: padded to a byte if it is the last.
abbrev pub end_block : Bool → Writer → Writer
end_block is_final w = if is_final then finish w else w

unfoldable pub emit_fixed : Bool → List Lz77Code → Writer → Result Writer
unfolding write_symbols
emit_fixed is_final symbols w = do
  lit ← from_code_lengths fixed_literal_code_lengths
  dist ← from_code_lengths fixed_distance_code_lengths
  w' ← write_symbols lit dist symbols (write_bits 2 1 (write_bit is_final w))
  ok (end_block is_final w')
