-- ===== src/Zlib/RoundTrip.antt =====
-- `compress` and `decompress` of src/zlib.rs with stored blocks.
use noflate.Base.{ℕ, ◌≡◌, ap, List, [], IsBytes}
use noflate.Error.{ok}
use noflate.Encode.Options.{EncodeOptions}
use noflate.Encode.Stored.{IsStream}
use noflate.Encode.Stream.Session.{IsStoring}
use noflate.Zlib.Container.{container}
use noflate.Zlib.Encoder.{with_options, feed, finish, compress_with}
use noflate.Zlib.Encoder.Run.{
  with_options-IsRun_zlib, feed-IsRun_zlib, finish-container_zlib, advance-output_zlib,
}
use noflate.Zlib.Decoder.{decompress}
use noflate.Zlib.Decoder.Whole.{decompress-container}

compress_with-container :
    (options : EncodeOptions) (bytes : List ℕ)
    → IsStoring options
    → IsBytes bytes
    → (encoded : List ℕ) × IsStream bytes encoded
      × (compress_with options bytes ≡ ok (container bytes encoded))
unfolding compress_with
compress_with-container options bytes s small =
    let fresh = with_options options in
    let (fed, run) = feed-IsRun_zlib bytes [] [] fresh small (with_options-IsRun_zlib options s) in
    let (ended, (encoded, stream, out)) = finish-container_zlib bytes [] (feed bytes fresh).1 run in
    let (e', took) = advance-output_zlib (finish (feed bytes fresh).1).1 in
    (encoded, stream, rw (compress_with, fed, ended, took) (ap ok out))

-- Compressing bytes to a zlib stream with stored blocks and decompressing it give the bytes back: the
-- compressor never fails, and the decompressor accepts its header and its checksum. The options set
-- no limit on the input of a block, or a positive one.
pub decompress-compress_with_zlib :
    (options : EncodeOptions) (bytes : List ℕ)
    → IsStoring options
    → IsBytes bytes
    → (out : List ℕ) × (compress_with options bytes ≡ ok out) × (decompress out ≡ ok bytes)
decompress-compress_with_zlib options bytes s small =
    let (encoded, stream, out) = compress_with-container options bytes s small in
    (container bytes encoded, out, decompress-container bytes encoded small stream)
