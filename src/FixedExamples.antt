-- ===== src/FixedExamples.antt =====
-- Runs of the encoder and the decoder with Huffman codes at small inputs.
use noflate.Base.{
  ◌++◌, All, true, false, sym, ap, ◌∙◌, append_assoc, append-nil, replicate, ℕ, ◌≡◌, ◌⊎◌, refl,
  none, some, List, [], ◌∷◌, arith, length, IsBytes,
}
use noflate.Error.{ok}
use noflate.Buf
use noflate.Bit.View.{bits, byte_bits}
use noflate.Bit.Reader.{Reader}
use noflate.Bit.Reads.{IsValid}
use noflate.Bit.Writer.{Writer}
use noflate.Bit.Writer
use noflate.Bit.Writes.{IsFlushed, written, written-finish, Extends-join}
use noflate.Decode.Copy.Repeats.{copy_bytes}
use noflate.Huffman.Encoder.{Code, HuffmanEncoder, encode}
use noflate.Huffman.Encoder
use noflate.Huffman.Decoder.{HuffmanDecoder, decode}
use noflate.Huffman.Decoder
use noflate.Huffman.Looks.{IsDecoded}
use noflate.Huffman.RoundTrip.{IsWritten, decode-encode}
use noflate.Lz77.Reach.{IsToken}
use noflate.Lz77.{Lz77Code, literal, pointer}
use noflate.Encode.Options.{EncodeOptions, fixed}
use noflate.Encode.Blocks.{write_symbols}
use noflate.Encode.Symbols.{BlockDigits, write_symbols-IsWritten}
use noflate.Encode.Fixed.{FixedStream, last, more, fixed_header, IsEmitted, emit_fixed-IsEmitted}
use noflate.Encode.Stream.Seen.{after-IsBytes}
use noflate.Encode.Stream as Encode
use noflate.Encode.Stream.{Encoder}
use noflate.Decode.Fixed.{fixed_tables, fixed-IsCodable}
use noflate.Decode.Stream as Decode
use noflate.Decode.Stream.{Decoder}
use noflate.Decode.Stream.StoredFeed.{IsAtBlock, new-IsAtBlock}
use noflate.Decode.Stream.FixedFeed.{HasEnded, HasYielded, fed}
use noflate.Decode.Stream.FixedStart.{fed-IsDecoding, feed-outcome}
use noflate.Decode.Stream.FixedTaken.{IsTaken, advance-IsTaken}
use noflate.Deflate.{compress_with, decompress}
use noflate.Deflate.Fixed.{decompress-compress_with_fixed}

-- Blocks with fixed codes of four bytes of input.
abbrev fixing : EncodeOptions
fixing = record { block_kind = fixed; max_block_input_bytes = some 4 }

abbrev six_bytes : List ℕ
six_bytes = 97 ∷ 97 ∷ 97 ∷ 97 ∷ 97 ∷ 98 ∷ []

six_bytes-IsBytes : IsBytes six_bytes
six_bytes-IsBytes = ground arith

decompress-compress_with_fixed_example :
    (out : List ℕ) × (compress_with fixing six_bytes ≡ ok out) × (decompress out ≡ ok six_bytes)
decompress-compress_with_fixed_example =
    decompress-compress_with_fixed fixing six_bytes refl (omega arith) six_bytes-IsBytes

-- The symbols 0, 1 and 2 with codes of one, two and two bits.
abbrev three_lengths : List ℕ
three_lengths = 1 ∷ 2 ∷ 2 ∷ []

abbrev three_codes : HuffmanEncoder
three_codes = record {
  codes =
      record { width = 1; code_bits = 0 }
      ∷ record { width = 2; code_bits = 1 }
      ∷ record { width = 2; code_bits = 3 }
      ∷ [];
}

abbrev three_slots : HuffmanDecoder
three_slots = record { table = 1 ∷ 34 ∷ 1 ∷ 66 ∷ []; safely_peek_bits = 2; max_bits = 2 }

abbrev empty_writer : Writer
empty_writer = record { output = []; bit_buffer = 0; bit_count = 0 }

empty_writer-IsFlushed : IsFlushed empty_writer
empty_writer-IsFlushed = record { count_small = omega arith; buffer_fits = omega arith }

-- The code of symbol 1, with six more bits behind.
abbrev one_byte : Reader
one_byte = record { input = 45 ∷ []; byte_index = 0; bit_buffer = 0; bit_count = 0 }

one_byte-IsValid : IsValid one_byte
one_byte-IsValid = record {
  index_in = omega arith;
  bytes = ground arith;
  count_small = omega arith;
  buffer_fits = omega arith;
}

decode-encode_example :
    IsWritten (1 ∷ 0 ∷ []) empty_writer (encode three_codes 1 empty_writer)
    × IsDecoded 1 (1 ∷ 1 ∷ 0 ∷ 1 ∷ 0 ∷ 0 ∷ []) (decode three_slots one_byte)
unfolding Encoder.from_code_lengths Decoder.from_code_lengths
decode-encode_example =
    decode-encode three_lengths none none three_codes three_slots 1
      (record { width = 2; code_bits = 1 }) empty_writer one_byte (1 ∷ 1 ∷ 0 ∷ 1 ∷ 0 ∷ 0 ∷ [])
      (omega arith) refl refl refl (omega arith) empty_writer-IsFlushed one_byte-IsValid refl
      (omega arith)

abbrev two_tokens : List Lz77Code
two_tokens = literal 97 ∷ pointer 4 1 ∷ []

write_symbols-IsWritten_example :
    (digits : List ℕ) × BlockDigits fixed_tables.lit fixed_tables.dist two_tokens digits
    × IsWritten digits empty_writer
        (write_symbols fixed_tables.lit fixed_tables.dist two_tokens empty_writer)
write_symbols-IsWritten_example =
    write_symbols-IsWritten fixed_tables.coder.lits fixed_tables.coder.dists two_tokens empty_writer
      fixed_tables.coder.eob (ground arith)
      (
        fixed-IsCodable fixed_tables (literal 97) (ground arith),
        (fixed-IsCodable fixed_tables (pointer 4 1) (ground arith), tt),
      )
      empty_writer-IsFlushed

abbrev fed_encoder : Encoder
fed_encoder = (Encode.feed six_bytes (Encode.with_options fixing)).1

abbrev encoded : List ℕ
encoded = Encode.output (Encode.finish fed_encoder).1

-- A decoder before a stream, with two bytes of output that are not taken yet.
abbrev two_put : Decoder
two_put = record Decode.new { output = 5 ∷ 6 ∷ [] }

two_put-IsAtBlock : IsAtBlock two_put
unfolding Decode.new
two_put-IsAtBlock = record {
  running = new-IsAtBlock.running;
  input = new-IsAtBlock.input;
  state = refl;
  no_buffer = refl;
  no_bits = refl;
}

-- A block, and a last one that copies from the content of the first and from what was put out before.
abbrev first_tokens : List Lz77Code
first_tokens = literal 97 ∷ []

abbrev second_tokens : List Lz77Code
second_tokens = pointer 3 2 ∷ []

first_tokens-IsToken : All IsToken first_tokens
first_tokens-IsToken = ground arith

second_tokens-IsToken : All IsToken second_tokens
second_tokens-IsToken = ground arith

abbrev first_block : IsEmitted fixed_tables false first_tokens empty_writer
first_block =
    emit_fixed-IsEmitted fixed_tables false first_tokens empty_writer first_tokens-IsToken
      empty_writer-IsFlushed

abbrev second_block : IsEmitted fixed_tables true second_tokens first_block.after
second_block =
    emit_fixed-IsEmitted fixed_tables true second_tokens first_block.after second_tokens-IsToken
      first_block.flushed

abbrev crossing : List ℕ
crossing = (Writer.finish second_block.after).output

abbrev padding : List ℕ
padding = replicate (written-finish second_block.after second_block.flushed).0 0

crossing_digits :
    byte_bits crossing
    ≡ fixed_header false
      ++ (first_block.digits ++ (fixed_header true ++ (second_block.digits ++ padding)))
crossing_digits =
    let first = fixed_header false ++ first_block.digits in
    let second = fixed_header true ++ second_block.digits in
    let (n, few, padded, grown, no_bits) = written-finish second_block.after second_block.flushed in
    let both : written second_block.after ≡ first ++ second =
      second_block.appended ∙ ap (λ l. l ++ second) first_block.appended in
    sym (
      ap (λ k. byte_bits crossing ++ bits k (Writer.finish second_block.after).bit_buffer) no_bits
      ∙ append-nil _)
    ∙ padded
    ∙ ap (λ l. l ++ padding) both
    ∙ append_assoc first second padding
    ∙ append_assoc (fixed_header false) first_block.digits (second ++ padding)
    ∙ ap (λ l. fixed_header false ++ (first_block.digits ++ l))
        (append_assoc (fixed_header true) second_block.digits padding)

crossing-FixedStream :
    FixedStream fixed_tables padding (5 ∷ 6 ∷ []) (97 ∷ 6 ∷ 97 ∷ 6 ∷ []) (byte_bits crossing)
unfolding copy_bytes
crossing-FixedStream =
    more first_tokens first_block.digits (97 ∷ []) (6 ∷ 97 ∷ 6 ∷ [])
      (fixed_header true ++ (second_block.digits ++ padding))
      (record { same = refl; limits = first_tokens-IsToken; reach = (tt, tt) }) first_block.block
      (last second_tokens second_block.digits
        (record { same = refl; limits = second_tokens-IsToken; reach = (omega arith, tt) })
        second_block.block refl)
      refl crossing_digits

crossing-IsBytes : IsBytes crossing
crossing-IsBytes =
    let grown =
      Extends-join (Extends-join first_block.extends second_block.extends)
        (written-finish second_block.after second_block.flushed).3 in
    after-IsBytes [] grown.more tt grown.bytes grown.output

feed-outcome_example :
    ((Decode.feed crossing two_put).0 ≡ ok tt)
    × (HasEnded fixed_tables padding []
          (5 ∷ 6 ∷ 97 ∷ 6 ∷ 97 ∷ 6 ∷ [])
          (fed crossing two_put)
          (Decode.feed crossing two_put).1
        ⊎ HasYielded fixed_tables padding []
            (5 ∷ 6 ∷ 97 ∷ 6 ∷ 97 ∷ 6 ∷ [])
            (fed crossing two_put)
            (Decode.feed crossing two_put).1)
unfolding Decode.new Decode.remaining_input Buf.get Buf.new
feed-outcome_example =
    feed-outcome fixed_tables padding (97 ∷ 6 ∷ 97 ∷ 6 ∷ []) [] crossing two_put two_put-IsAtBlock
      crossing-IsBytes (omega arith) crossing-FixedStream

advance-IsTaken_example :
    (d : Decoder) × (Decode.advance
        (length (Decode.output (fed crossing two_put)))
        (fed crossing two_put)
      ≡ ok d)
    × IsTaken fixed_tables padding [] (5 ∷ 6 ∷ 97 ∷ 6 ∷ 97 ∷ 6 ∷ []) (fed crossing two_put) d
unfolding Decode.new Decode.remaining_input Buf.get Buf.new
advance-IsTaken_example =
    advance-IsTaken fixed_tables padding [] (5 ∷ 6 ∷ 97 ∷ 6 ∷ 97 ∷ 6 ∷ []) (fed crossing two_put)
      (fed-IsDecoding fixed_tables padding (97 ∷ 6 ∷ 97 ∷ 6 ∷ []) [] crossing two_put
        two_put-IsAtBlock crossing-IsBytes (omega arith) crossing-FixedStream)
      (omega arith)
