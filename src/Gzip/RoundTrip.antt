-- ===== src/Gzip/RoundTrip.antt =====
-- `compress` and `decompress` of src/gzip.rs with stored blocks.
use noflate.Base.{ℕ, ◌≡◌, ap, List, [], IsBytes}
use noflate.Error.{ok}
use noflate.Encode.Options.{EncodeOptions}
use noflate.Encode.Stored.{IsStream}
use noflate.Encode.Stream.Session.{IsStoring}
use noflate.Gzip.Container.{container}
use noflate.Gzip.Encoder.{with_options, feed, finish, compress_with}
use noflate.Gzip.Encoder.Run.{
  with_options-IsRun_gzip, feed-IsRun_gzip, finish-container_gzip, advance-output_gzip,
}
use noflate.Gzip.Decoder.{decompress}
use noflate.Gzip.Decoder.Whole.{decompress-container_gzip}

compress_with-container_gzip :
    (options : EncodeOptions) (bytes : List ℕ)
    → IsStoring options
    → IsBytes bytes
    → (encoded : List ℕ) × IsStream bytes encoded
      × (compress_with options bytes ≡ ok (container bytes encoded))
unfolding compress_with
compress_with-container_gzip options bytes s small =
    let fresh = with_options options in
    let (fed, run) = feed-IsRun_gzip bytes [] [] fresh small (with_options-IsRun_gzip options s) in
    let (ended, (encoded, stream, out)) = finish-container_gzip bytes [] (feed bytes fresh).1 run in
    let (e', took) = advance-output_gzip (finish (feed bytes fresh).1).1 in
    (encoded, stream, rw (compress_with, fed, ended, took) (ap ok out))

-- Compressing bytes to a gzip stream with stored blocks and decompressing it give the bytes back: the
-- compressor never fails, and the decompressor accepts its header, its checksum and its length. The options set
-- no limit on the input of a block, or a positive one.
pub decompress-compress_with_gzip :
    (options : EncodeOptions) (bytes : List ℕ)
    → IsStoring options
    → IsBytes bytes
    → (out : List ℕ) × (compress_with options bytes ≡ ok out) × (decompress out ≡ ok bytes)
decompress-compress_with_gzip options bytes s small =
    let (encoded, stream, out) = compress_with-container_gzip options bytes s small in
    (container bytes encoded, out, decompress-container_gzip bytes encoded stream)
