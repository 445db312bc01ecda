-- ===== src/Deflate/Stored.antt =====
-- `compress` and `decompress` of src/deflate.rs with stored blocks.
use noflate.Base.{
  ℕ, suc, ◌+◌, ◌-◌, ◌≡◌, refl, sym, ap, ◌∙◌, true, List, [], ◌++◌, arith, length, length-drop, drop,
  leb, ◌*◌, append-nil, le→leb,
}
use noflate.Error.{ok}
use noflate.Encode.Options.{EncodeOptions}
use noflate.Encode.Stream.Session.{Session, IsStoring, finish-Session}
use noflate.Encode.Stored.{IsStream}
use noflate.Encode.Stream as Encode
use noflate.Encode.Stream.StoredRun.{with_options-IsRun, feed-IsRun, finish-IsStream}
use noflate.Decode.Stream as Decode
use noflate.Decode.Stream.Taken.{advance-output}
use noflate.Decode.Stream.StoredFeed.{new-IsAtBlock, new-holds, feed-IsEnded, ended-output}
use noflate.Deflate.{compress_with, decompress, decompress_loop, take_encoded, take_decoded}

pub take_encoded_lem : (e : Encode.Encoder) → (take_encoded e).0 ≡ ok (Encode.output e)
unfolding take_encoded Encode.output Encode.advance
take_encoded_lem e =
    let fits : leb (length (drop e.drained e.output)) (length e.output - e.drained) ≡ true =
      le→leb _ _ (omega (arith, length-drop {0} e.drained e.output)) in
    rw fits refl

-- Compression with stored blocks never fails, and puts the input out as the blocks of RFC 1951, of
-- which the last, and only that, is marked so. The options set no limit on the input of a block, or
-- a positive one.
pub compress_with-IsStream :
    (options : EncodeOptions) (bytes : List ℕ)
    → IsStoring options
    → (out : List ℕ) × (compress_with options bytes ≡ ok out) × IsStream bytes out
unfolding compress_with Encode.feed Encode.with_options
compress_with-IsStream options bytes s =
    let fresh = Encode.with_options options in
    let fed = feed-IsRun bytes [] [] fresh (with_options-IsRun options s.kind s.limit) in
    let ended = finish-IsStream bytes [] (Encode.feed bytes fresh).1 fed.1 in
    rw (fed.0, ended.0)
      (Encode.output (Encode.finish (Encode.feed bytes fresh).1).1, take_encoded_lem _, ended.1)

-- All the output is taken, and the decoder has ended no less.
take_decoded_lem :
    (d : Decode.Decoder)
    → ((take_decoded d).0 ≡ ok (Decode.output d))
      × (Decode.is_finished (take_decoded d).1 ≡ Decode.is_finished d)
unfolding take_decoded
take_decoded_lem d = let (d', took, ended, unread) = advance-output d in rw took (refl, ended)

-- An ended decoder gives its output, and the loop ends.
pub decompress_loop_ended :
    (fuel : ℕ) (d : Decode.Decoder)
    → Decode.is_finished d ≡ true
    → (decompress_loop (suc fuel) [] d).0 ≡ ok (Decode.output d)
unfolding decompress_loop
decompress_loop_ended fuel d ended =
    let taken = take_decoded_lem d in rw (taken.0, taken.1, ended) refl

-- `decompress` on input that ends the stream within the first feed.
decompress_ended :
    (all : List ℕ)
    → (Decode.feed all Decode.new).0 ≡ ok tt
    → Decode.is_finished (Decode.feed all Decode.new).1 ≡ true
    → decompress all ≡ ok (Decode.output (Decode.feed all Decode.new).1)
unfolding decompress
decompress_ended all fed ended =
    let fuel : 8 * length all + 2 ≡ suc (8 * length all + 1) = omega arith in
    rw (decompress, fed, fuel)
      (decompress_loop_ended (8 * length all + 1) (Decode.feed all Decode.new).1 ended)

-- Decompression of a stream of stored blocks with zeros for padding gives its content, whatever follows
-- the stream.
pub decompress-IsStream :
    (bytes encoded rest : List ℕ) → IsStream bytes encoded → decompress (encoded ++ rest) ≡ ok bytes
decompress-IsStream bytes encoded rest stream =
    let all = encoded ++ rest in
    let fed = feed-IsEnded Decode.new all bytes encoded rest new-IsAtBlock stream new-holds in
    decompress_ended all fed.0 fed.1.ended
    ∙ ap ok (ended-output bytes rest (Decode.feed all Decode.new).1 fed.1)

-- However a program feeds an encoder with stored blocks, flushes it, takes its output and forgets its
-- history, it can be finished, and all the output then decompresses to all that was fed. The options
-- set no limit on the input of a block, or a positive one.
pub decompress-Session :
    {options : EncodeOptions} {fed gone : List ℕ} {e : Encode.Encoder}
    → IsStoring options
    → Session options fed gone e
    → ((Encode.finish e).0 ≡ ok tt)
      × (decompress (gone ++ Encode.output (Encode.finish e).1) ≡ ok fed)
decompress-Session {options} {fed} {gone} {e} s calls =
    let done = finish-Session s calls in
    let out = gone ++ Encode.output (Encode.finish e).1 in
    (done.0, ap decompress (sym (append-nil out)) ∙ decompress-IsStream fed out [] done.1)

-- Compression with stored blocks never fails, and decompression of what it gives gives the bytes back.
-- The options set no limit on the input of a block, or a positive one.
pub decompress-compress_with :
    (options : EncodeOptions) (bytes : List ℕ)
    → IsStoring options
    → (out : List ℕ) × (compress_with options bytes ≡ ok out) × (decompress out ≡ ok bytes)
decompress-compress_with options bytes s =
    let (out, compressed, stream) = compress_with-IsStream options bytes s in
    (
      out,
      compressed,
      ap decompress (sym (append-nil out)) ∙ decompress-IsStream bytes out [] stream,
    )
