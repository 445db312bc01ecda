-- ===== src/StoredExamples.antt =====
-- Runs of the encoder and the decoders with stored blocks, and of the match finder, at small inputs.
use noflate.Base.{
  ℕ, true, ◌≡◌, ◌<◌, refl, List, [], ◌∷◌, ◌++◌, arith, take, length, some, IsBytes, All,
}
use noflate.Error.{ok}
use noflate.Lz77
use noflate.Lz77.{fill_symbols}
use noflate.Lz77.Expand.{expand, IsToken, fill_symbols-expand}
use noflate.Bit.Writer
use noflate.Encode.Options.{EncodeOptions, stored}
use noflate.Encode.Stored.{IsStream, nil-IsBlocks, block_bytes-IsStream, block_bytes}
use noflate.Encode.Stream as Encode
use noflate.Encode.Stream.{Encoder, emit_full_blocks}
use noflate.Encode.Stream.StoredRun.{IsRun, emit_full_blocks-IsRun}
use noflate.Encode.Stream.Session.{
  Session, IsStoring, opened, fed_more, taken, flushed, finish-Session,
}
use noflate.Decode.Stream as Decode
use noflate.Decode.Stream.StoredFeed.{IsEnded, new-IsAtBlock, new-holds, feed-IsEnded}
use noflate.Deflate.{compress_with, decompress}
use noflate.Deflate.Stored.{decompress-IsStream, decompress-Session, decompress-compress_with}
use noflate.Zlib.Encoder as ZlibEncoder
use noflate.Zlib.Decoder as ZlibDecoder
use noflate.Zlib.RoundTrip.{decompress-compress_with_zlib}
use noflate.Gzip.Encoder as GzipEncoder
use noflate.Gzip.Decoder as GzipDecoder
use noflate.Gzip.RoundTrip.{decompress-compress_with_gzip}

-- Stored blocks of two bytes of input.
abbrev storing : EncodeOptions
storing = record { block_kind = stored; max_block_input_bytes = some 2 }

storing-IsStoring : IsStoring storing
storing-IsStoring = record { kind = refl; limit = omega arith }

abbrev pub three_bytes : List ℕ
three_bytes = 7 ∷ 8 ∷ 9 ∷ []

three_bytes-IsBytes : IsBytes three_bytes
three_bytes-IsBytes = ground arith

abbrev fresh : Encoder
fresh = Encode.with_options storing

abbrev flushed_encoder : Encoder
flushed_encoder = (Encode.sync_flush (Encode.feed three_bytes fresh).1).1

-- The block that the feed wrote, 7 bytes, is taken after the flush.
abbrev taken_encoder : Encoder
taken_encoder = record flushed_encoder { drained = 7 }

calls : Session storing three_bytes (take 7 (Encode.output flushed_encoder)) taken_encoder
unfolding Encode.output Encode.with_options Encode.feed Encode.sync_flush Encode.advance
    Encode.emit_block_chunk Encode.emit_stored_chunk Writer.align_to_byte Writer.write_bits
    Writer.write_bit Writer.new_seeded
calls = taken (flushed (fed_more opened three_bytes)) 7 taken_encoder (omega arith) refl

decompress-Session_example :
    ((Encode.finish taken_encoder).0 ≡ ok tt)
    × (decompress
          (take 7 (Encode.output flushed_encoder) ++ Encode.output (Encode.finish taken_encoder).1)
        ≡ ok three_bytes)
decompress-Session_example = decompress-Session storing-IsStoring calls

finish-Session_example :
    ((Encode.finish taken_encoder).0 ≡ ok tt)
    × IsStream three_bytes
        (take 7 (Encode.output flushed_encoder) ++ Encode.output (Encode.finish taken_encoder).1)
finish-Session_example = finish-Session storing-IsStoring calls

decompress-compress_with_example :
    (out : List ℕ) × (compress_with storing three_bytes ≡ ok out)
    × (decompress out ≡ ok three_bytes)
decompress-compress_with_example = decompress-compress_with storing three_bytes storing-IsStoring

decompress-compress_with_zlib_example :
    (out : List ℕ) × (ZlibEncoder.compress_with storing three_bytes ≡ ok out)
    × (ZlibDecoder.decompress out ≡ ok three_bytes)
decompress-compress_with_zlib_example =
    decompress-compress_with_zlib storing three_bytes storing-IsStoring three_bytes-IsBytes

decompress-compress_with_gzip_example :
    (out : List ℕ) × (GzipEncoder.compress_with storing three_bytes ≡ ok out)
    × (GzipDecoder.decompress out ≡ ok three_bytes)
decompress-compress_with_gzip_example =
    decompress-compress_with_gzip storing three_bytes storing-IsStoring three_bytes-IsBytes

-- One block, and a byte behind it.
decompress-IsStream_example : decompress (block_bytes true three_bytes ++ 5 ∷ []) ≡ ok three_bytes
decompress-IsStream_example =
    decompress-IsStream three_bytes (block_bytes true three_bytes) (5 ∷ [])
      (block_bytes-IsStream three_bytes (omega arith))

feed-IsEnded_example :
    ((Decode.feed (block_bytes true three_bytes ++ 5 ∷ []) Decode.new).0 ≡ ok tt)
    × IsEnded Decode.new three_bytes
        (5 ∷ [])
        (Decode.feed (block_bytes true three_bytes ++ 5 ∷ []) Decode.new).1
feed-IsEnded_example =
    feed-IsEnded Decode.new (block_bytes true three_bytes ++ 5 ∷ []) three_bytes
      (block_bytes true three_bytes) (5 ∷ []) new-IsAtBlock
      (block_bytes-IsStream three_bytes (omega arith)) new-holds

-- The encoder with three bytes of input that wait.
abbrev waiting : Encoder
waiting = record fresh { input = three_bytes }

waiting-IsRun : IsRun three_bytes [] waiting
unfolding Encode.with_options
waiting-IsRun = record {
  kind = refl;
  limit = omega arith;
  running = refl;
  no_buffer = refl;
  no_bits = refl;
  drained_in = omega arith;
  emitted = [];
  blocks = nil-IsBlocks;
  joined = refl;
}

emit_full_blocks-IsRun_example :
    ((emit_full_blocks 3 2 waiting).0 ≡ ok tt)
    × IsRun three_bytes [] (emit_full_blocks 3 2 waiting).1
    × (length (emit_full_blocks 3 2 waiting).1.input < 2)
emit_full_blocks-IsRun_example =
    emit_full_blocks-IsRun 3 2 three_bytes [] waiting (omega arith) (omega arith) waiting-IsRun

-- The second three bytes are found again behind the first.
abbrev six_bytes : List ℕ
six_bytes = three_bytes ++ three_bytes

six_bytes-IsBytes : IsBytes six_bytes
six_bytes-IsBytes = ground arith

fill_symbols-expand_example :
    (expand (fill_symbols six_bytes Lz77.new).0 [] ≡ six_bytes)
    × All IsToken (fill_symbols six_bytes Lz77.new).0
fill_symbols-expand_example = fill_symbols-expand six_bytes Lz77.new six_bytes-IsBytes
