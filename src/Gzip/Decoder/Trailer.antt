-- ===== src/Gzip/Decoder/Trailer.antt =====
-- The trailer in `Decoder` of src/gzip.rs, once the stream with stored blocks has ended before it.
use noflate.Base.{
  Bool, false, ℕ, suc, ◌+◌, ◌<◌, ◌≡◌, refl, ◌∙◌, true, ◌++◌, arith, length, ◌==◌, le_bytes_32,
  replicate, u32,
}
use noflate.Error.{Result, ok, err, invalid_data, gzip_crc_mismatch, gzip_isize_mismatch}
use noflate.Crc32
use noflate.Buf
use noflate.Decode.Stream as Deflate
use noflate.Decode.Stream.Taken.{advance-output}
use noflate.Gzip.Header.{trailer}
use noflate.Gzip.Decoder.{
  Decoder, le_word, drain, take_body, check_trailer, consume_deflate_tail, feed_trailer_bytes,
  feed_trailer_byte, set_state,
}

le_word-le_bytes :
    (n m : ℕ)
    → n < 4294967296
    → m < 4294967296
    → (le_word (le_bytes_32 n ++ le_bytes_32 m) 0 ≡ n)
      × (le_word (le_bytes_32 n ++ le_bytes_32 m) 4 ≡ m)
le_word-le_bytes n m h g = (omega arith, omega arith)

-- The answer to a trailer, by whether its checksum and its length are right, and the output of a
-- decoder that takes it.
abbrev pub Answers : Bool → Bool → Buf.Buf → Result (Unit {0}) × Decoder → Type 0
Answers true true out (x, d) = (x ≡ ok tt) × (d.finished ≡ true) × (d.output ≡ out)
Answers true false out (x, d) = x ≡ err (invalid_data gzip_isize_mismatch)
Answers false same' out (x, d) = x ≡ err (invalid_data gzip_crc_mismatch)

-- The trailer that is still in the inner decoder.
tail_lem :
    (same same' : Bool) (sum size : ℕ) (d : Decoder)
    → d.state ≡ trailer
    → d.trailer_bytes ≡ replicate 8 0
    → d.trailer_filled ≡ 0
    → (sum == Crc32.value d.crc) ≡ same
    → (size == d.size) ≡ same'
    → sum < 4294967296
    → size < 4294967296
    → Deflate.remaining_input d.deflate ≡ le_bytes_32 sum ++ le_bytes_32 size
    → Answers same same' d.output (consume_deflate_tail d)
unfolding consume_deflate_tail feed_trailer_bytes feed_trailer_byte check_trailer
tail_lem true true sum size d at none zero_filled same same' small small' tail =
    let words = le_word-le_bytes sum size small small' in
    rw (tail, none, zero_filled, words.0, words.1, same, same') (refl, refl, refl)
tail_lem true false sum size d at none zero_filled same same' small small' tail =
    let words = le_word-le_bytes sum size small small' in
    rw (tail, none, zero_filled, words.0, words.1, same, same') refl
tail_lem false any sum size d at none zero_filled same same' small small' tail =
    let words = le_word-le_bytes sum size small small' in
    rw (tail, none, zero_filled, words.0, same) refl

-- The output of the inner decoder, moved on to the output, the checksum and the size.
abbrev moved : Deflate.Decoder → Decoder → Decoder
moved inner d = set_state trailer (record d {
  deflate = inner;
  crc = Crc32.update (Deflate.output d.deflate) d.crc;
  size = u32 (d.size + u32 (length (Deflate.output d.deflate)));
  output = Buf.feed (Deflate.output d.deflate) d.output;
})

-- The loop of the body, once the inner stream has ended with the eight bytes of the trailer behind.
pub drain_lem :
    (fuel : ℕ) (same same' : Bool) (sum size : ℕ) (d : Decoder)
    → Deflate.is_finished d.deflate ≡ true
    → Deflate.remaining_input d.deflate ≡ le_bytes_32 sum ++ le_bytes_32 size
    → d.trailer_bytes ≡ replicate 8 0
    → d.trailer_filled ≡ 0
    → (sum == Crc32.value (Crc32.update (Deflate.output d.deflate) d.crc)) ≡ same
    → (size == u32 (d.size + u32 (length (Deflate.output d.deflate)))) ≡ same'
    → sum < 4294967296
    → size < 4294967296
    → Answers same same' (Buf.feed (Deflate.output d.deflate) d.output) (drain (suc fuel) d)
unfolding drain take_body
drain_lem fuel same same' sum size d ended unread none zero_filled crc sized small small' =
    let (inner, took, ended', unread') = advance-output d.deflate in
    rw (took, ended', ended)
      (tail_lem same same' sum size (moved inner d) refl none zero_filled crc sized small small'
        (unread' ∙ unread))
