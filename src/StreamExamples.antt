-- ===== src/StreamExamples.antt =====
-- Runs of the codes, the match finder, the encoder and the decoder at small inputs.
use noflate.Base.{ℕ, IsBytes, ◌≡◌, ◌↔◌, List, [], ◌∷◌, arith, drop, some, bit_and}
use noflate.Error.{ok, err, panic, invalid_data}
use noflate.Bit.View.{bits}
use noflate.Bit.Reader
use noflate.Bit.Reader.{Reader, eof, read_bits, peek_bits}
use noflate.Buf
use noflate.Buf.{Buf}
use noflate.Symbol.{
  EncodedSymbol, length_table, distance_table, length_to_symbol, distance_to_symbol,
}
use noflate.Symbol.Laws.{Decodes, length_to_symbol-Decodes, distance_to_symbol-Decodes}
use noflate.Decode.Copy.{copy_from_distance}
use noflate.Decode.Copy.Repeats.{copy_bytes}
use noflate.Decode.Copy.Bytewise.{copy_from_distance-copy_bytes}
use noflate.Format.{detect, zlib}
use noflate.Zlib.Header.{validate_zlib_header, cmf, flg}
use noflate.Zlib.Laws.{validate_zlib_header-detect}
use noflate.Huffman.Codes.{reverse_bits}
use noflate.Huffman.Reversal.{reverse_bits-reverse}
use noflate.Lz77.Prefix.{longest_common_prefix}
use noflate.Lz77.Matches.{common, longest_common_prefix-common}
use noflate.Decode.State.{block_header}
use noflate.Decode.Stream.{Decoder, machine, feed}
use noflate.Decode.Stream.Failure.{IsReserved, with_input, feed-reserved_block_type}
use noflate.Error.{reserved_block_type}
use noflate.Base.{reverse, min, false, refl, ◌<◌, ◌^◌}
use noflate.Encode.Options.{fixed}
use noflate.Encode.Stream
use noflate.Bit.Writer.{new_seeded}
use noflate.Base.{none}
use noflate.Bit.Reader.{available_bits}
use noflate.Examples.{two_bytes}

copy_from_distance-copy_bytes_example :
    copy_from_distance 2 5 two_bytes ≡ ok (copy_bytes 2 5 two_bytes)
copy_from_distance-copy_bytes_example =
    copy_from_distance-copy_bytes 2 5 two_bytes (omega arith) (omega arith)

-- Ten bytes twice, but for the last byte.
abbrev two_words : List ℕ
two_words = 1 ∷ 2 ∷ 3 ∷ 4 ∷ 5 ∷ 6 ∷ 7 ∷ 8 ∷ 9 ∷ 10 ∷ 1 ∷ 2 ∷ 3 ∷ 4 ∷ 5 ∷ 6 ∷ 7 ∷ 8 ∷ 9 ∷ 11 ∷ []

two_words-IsBytes : IsBytes two_words
two_words-IsBytes = ground arith

length_to_symbol-Decodes_example :
    (s : EncodedSymbol) × (length_to_symbol 40 ≡ ok s) × Decodes length_table 257 40 s
length_to_symbol-Decodes_example = length_to_symbol-Decodes 40 (omega arith) (omega arith)

distance_to_symbol-Decodes_example :
    (s : EncodedSymbol) × (distance_to_symbol 5000 ≡ ok s) × Decodes distance_table 0 5000 s
distance_to_symbol-Decodes_example = distance_to_symbol-Decodes 5000 (omega arith) (omega arith)

validate_zlib_header-detect_example :
    (validate_zlib_header (cmf ∷ flg ∷ []) ≡ ok tt)
    ↔ ((detect (cmf ∷ flg ∷ []) ≡ some zlib) × (bit_and flg 0x20 ≡ 0))
validate_zlib_header-detect_example =
    validate_zlib_header-detect cmf flg [] (omega arith) (omega arith)

longest_common_prefix-common_example :
    longest_common_prefix two_words 0 10 258
    ≡ min 258 (min 10 (common (drop 0 two_words) (drop 10 two_words)))
longest_common_prefix-common_example =
    longest_common_prefix-common two_words 0 10 258 two_words-IsBytes (omega arith) (omega arith)

reverse_bits-reverse_example :
    (reverse_bits 13 5 < 2 ^ 5) × (bits 5 (reverse_bits 13 5) ≡ reverse (bits 5 13))
reverse_bits-reverse_example = reverse_bits-reverse 13 5 (omega arith)

abbrev decoder : Decoder
decoder = record {
  input = record { bytes = []; offset = 0 };
  output = [];
  drained = 0;
  state = block_header;
  pending_bit_buffer = 0;
  pending_bit_count = 0;
  finished = false;
}

-- A final block of type 11.
decoder-IsReserved : IsReserved (machine (with_input (7 ∷ []) decoder)).reader
unfolding Buf.feed Buf.get Reader.new_seeded
decoder-IsReserved = record {
  valid = record {
    index_in = omega arith;
    bytes = (omega arith, tt);
    count_small = omega arith;
    buffer_fits = omega arith;
  };
  enough = omega arith;
  block_type = refl;
}

feed-reserved_block_type_example :
    ((feed (7 ∷ []) decoder).0 ≡ err (invalid_data reserved_block_type))
    × ((feed two_bytes (feed (7 ∷ []) decoder).1).0 ≡ panic)
feed-reserved_block_type_example =
    feed-reserved_block_type (7 ∷ []) two_bytes decoder refl refl decoder-IsReserved

-- An encoder with two bits of a block before, and two bytes of input.
abbrev encoder : Stream.Encoder
encoder = record {
  options = record { block_kind = fixed; max_block_input_bytes = none };
  input = two_bytes;
  output = 1 ∷ [];
  matcher = record { head = []; prev = []; head_dirty = false };
  symbols = [];
  drained = 0;
  finishing = false;
  bit_buffer = 3;
  bit_count = 2;
}
