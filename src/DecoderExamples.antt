-- ===== src/DecoderExamples.antt =====
-- Runs of the Huffman decoder, of the run-length codes and of the container decoders at small inputs.
use noflate.Base.{
  some, replicate, ◌⊎◌, true, ◌==◌, ◌≡◌, refl, not, if◌then◌else◌, [], ◌∷◌, ◌++◌, arith, length,
  none, be_bytes_32, le_bytes_32, u32,
}
use noflate.Error.{
  ok, err, invalid_data, zlib_adler_mismatch, gzip_crc_mismatch, gzip_isize_mismatch,
}
use noflate.Bit.Reader.{Reader}
use noflate.Bit.Reads.{IsValid}
use noflate.Huffman.Decoder.{HuffmanDecoder, decode, from_code_lengths}
use noflate.Huffman.Decoder.Table.{IsTable, from_code_lengths-IsTable}
use noflate.Huffman.Decoder.Outcome.{IsOutcome, decode-IsOutcome}
use noflate.Huffman.Encoder.{HuffmanEncoder, code_width}
use noflate.Encode.Dynamic.{build_bitwidth_codes, widths_from}
use noflate.Encode.Dynamic.Expand.{expand_codes}
use noflate.Encode.Dynamic.RunLengths.{expand_codes-build_bitwidth_codes}
use noflate.Encode.Stored.{block_bytes, block_bytes-IsStream}
use noflate.Buf
use noflate.Decode.State.{stored_align_and_len}
use noflate.Decode.Stream as Decode
use noflate.Decode.Stream.StoredPieces.{at_lengths}
use noflate.Decode.Stream.PiecesFeed.{IsWithin, IsDone, IsFed, feed-IsWithin}
use noflate.Decode.Stream.PiecesAll.{feed_pieces, feed_pieces-IsStream}
use noflate.Adler32
use noflate.Crc32
use noflate.Zlib.Container.{header}
use noflate.Zlib.Decoder as ZlibDecoder
use noflate.Zlib.Decoder.Whole.{decompress-trailer}
use noflate.Gzip.Encoder.{header_bytes}
use noflate.Gzip.Decoder as GzipDecoder
use noflate.Gzip.Decoder.Whole.{decompress-trailer_gzip}
use noflate.StoredExamples.{three_bytes}

-- Two codes of one bit.
abbrev two_codes : HuffmanDecoder
two_codes = record { table = 1 ∷ 33 ∷ []; safely_peek_bits = 1; max_bits = 1 }

two_codes-built : from_code_lengths (1 ∷ 1 ∷ []) none none ≡ ok two_codes
unfolding from_code_lengths
two_codes-built = refl

from_code_lengths-IsTable_example : IsTable two_codes
from_code_lengths-IsTable_example =
    from_code_lengths-IsTable (1 ∷ 1 ∷ []) none none two_codes two_codes-built

abbrev one_byte : Reader
one_byte = record { input = 3 ∷ []; byte_index = 0; bit_buffer = 0; bit_count = 0 }

one_byte-IsValid : IsValid one_byte
one_byte-IsValid = record {
  index_in = omega arith;
  bytes = ground arith;
  count_small = omega arith;
  buffer_fits = omega arith;
}

decode-IsOutcome_example : IsOutcome (decode two_codes one_byte).0
decode-IsOutcome_example =
    decode-IsOutcome (1 ∷ 1 ∷ []) none none two_codes one_byte two_codes-built one_byte-IsValid

decompress-trailer_example :
    ZlibDecoder.decompress (header ++ (block_bytes true three_bytes ++ be_bytes_32 77)) ≡ (
      if 77 == Adler32.value (Adler32.update three_bytes Adler32.new)
      then ok three_bytes
      else err (invalid_data zlib_adler_mismatch))
decompress-trailer_example =
    decompress-trailer three_bytes (block_bytes true three_bytes) 77
      (block_bytes-IsStream three_bytes (omega arith)) (omega arith)

decompress-trailer_gzip_example :
    GzipDecoder.decompress
      (header_bytes ++ (block_bytes true three_bytes ++ (le_bytes_32 77 ++ le_bytes_32 3)))
    ≡ (if not (77 == Crc32.value (Crc32.update three_bytes Crc32.new))
        then err (invalid_data gzip_crc_mismatch)
        else if not (3 == u32 (length three_bytes))
        then err (invalid_data gzip_isize_mismatch)
        else ok three_bytes)
decompress-trailer_gzip_example =
    decompress-trailer_gzip three_bytes (block_bytes true three_bytes) 77 3
      (block_bytes-IsStream three_bytes (omega arith)) (omega arith) (omega arith)

-- The cuts are in the header, in the lengths and in the body.
feed_pieces-IsStream_example :
    ((feed_pieces ((1 ∷ 3 ∷ []) ∷ (0 ∷ 252 ∷ []) ∷ (255 ∷ 7 ∷ []) ∷ (8 ∷ 9 ∷ []) ∷ []) Decode.new).0
      ≡ ok tt)
    × (Decode.is_finished
          (feed_pieces
            ((1 ∷ 3 ∷ []) ∷ (0 ∷ 252 ∷ []) ∷ (255 ∷ 7 ∷ []) ∷ (8 ∷ 9 ∷ []) ∷ [])
            Decode.new).1
        ≡ true)
    × (Decode.output
          (feed_pieces
            ((1 ∷ 3 ∷ []) ∷ (0 ∷ 252 ∷ []) ∷ (255 ∷ 7 ∷ []) ∷ (8 ∷ 9 ∷ []) ∷ [])
            Decode.new).1
        ≡ three_bytes)
feed_pieces-IsStream_example =
    feed_pieces-IsStream (1 ∷ 3 ∷ []) ((0 ∷ 252 ∷ []) ∷ (255 ∷ 7 ∷ []) ∷ (8 ∷ 9 ∷ []) ∷ [])
      three_bytes (block_bytes true three_bytes) (block_bytes-IsStream three_bytes (omega arith))
      (ground arith) refl

-- The decoder that has the header byte, and waits for the lengths.
abbrev waiting : Decode.Decoder
waiting = record Decode.new { state = stored_align_and_len true; pending_bit_count = 5 }

waiting-IsWithin :
    IsWithin waiting
      (3 ∷ 0 ∷ 252 ∷ 255 ∷ 7 ∷ 8 ∷ 9 ∷ [])
      three_bytes
      (3 ∷ 0 ∷ 252 ∷ 255 ∷ 7 ∷ 8 ∷ 9 ∷ [])
      []
unfolding Decode.new Decode.remaining_input Buf.get Buf.new
waiting-IsWithin = record {
  running = refl;
  no_buffer = refl;
  expects = at_lengths true three_bytes [] [] refl refl (omega arith) (refl, refl) refl refl;
  input = record { offset_in = omega arith };
  unread = refl;
}

feed-IsWithin_example :
    ((Decode.feed (3 ∷ 0 ∷ 252 ∷ 255 ∷ 7 ∷ []) waiting).0 ≡ ok tt)
    × (IsDone waiting three_bytes
          (8 ∷ 9 ∷ [])
          []
          (Decode.feed (3 ∷ 0 ∷ 252 ∷ 255 ∷ 7 ∷ []) waiting).1
        ⊎ IsFed waiting three_bytes
            (8 ∷ 9 ∷ [])
            []
            (Decode.feed (3 ∷ 0 ∷ 252 ∷ 255 ∷ 7 ∷ []) waiting).1)
feed-IsWithin_example =
    feed-IsWithin waiting (3 ∷ 0 ∷ 252 ∷ 255 ∷ 7 ∷ []) (3 ∷ 0 ∷ 252 ∷ 255 ∷ 7 ∷ 8 ∷ 9 ∷ [])
      three_bytes (8 ∷ 9 ∷ []) [] waiting-IsWithin

-- Five codes of three bits, and a symbol without a code behind them.
abbrev five_codes : HuffmanEncoder
five_codes = record { codes = replicate 5 (record { width = 3; code_bits = 0 }) }

expand_codes-build_bitwidth_codes_example :
    expand_codes (build_bitwidth_codes five_codes 9 five_codes 5) []
    ≡ some (widths_from five_codes 0 9 ++ widths_from five_codes 0 5)
unfolding code_width
expand_codes-build_bitwidth_codes_example =
    expand_codes-build_bitwidth_codes five_codes five_codes 9 5 (ground arith) (ground arith)
