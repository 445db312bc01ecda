-- ===== src/Zlib/Decoder/Whole.antt =====
-- `Decoder` of src/zlib.rs, fed a whole zlib stream with stored blocks at once.
use mathlib.Core.Path.{subst}
use noflate.Base.{
  Bool, false, Bool-cases, inl, inr, if◌then◌else◌, ℕ, suc, ◌+◌, ◌<◌, ◌≡◌, refl, ap, ◌∙◌, true,
  List, [], ◌∷◌, ◌++◌, arith, length, length-append, min, ◌==◌, IsBytes, be_bytes_32,
}
use noflate.Error.{Result, ok, err, invalid_data, zlib_adler_mismatch}
use noflate.Exec.{and_then, ◌>>=◌}
use noflate.Adler32
use noflate.Adler32.Reference.{new-IsReduced, update-IsReduced, value-sums}
use noflate.Buf
use noflate.Buf.Queue
use noflate.Encode.Stored.{IsStream}
use noflate.Decode.Stream as Deflate
use noflate.Decode.Stream.StoredFeed.{new-IsAtBlock, new-holds, feed-IsEnded, ended-output}
use noflate.Decode.Stream.Taken.{advance-output}
use noflate.Zlib.Header.{cmf, flg, validate_zlib_header}
use noflate.Zlib.Container
use noflate.Zlib.Container.{container}
use noflate.Zlib.Decoder.{
  Decoder, header, body, trailer, new, output, is_finished, be_word, feed, feed_loop, feed_round,
  drain, take_body, check_trailer, consume_deflate_tail, feed_trailer_bytes, feed_byte_in_trailer,
  byte_in, unread_bits, decompress, advance,
}

-- A round of the loop, while there is input.
feed_loop_round :
    (fuel : ℕ) (rest : List ℕ) (d : Decoder)
    → 0 < length rest
    → feed_loop (suc fuel) rest d ≡ (feed_round d.state rest >>= λ rest'. feed_loop fuel rest') d
unfolding feed_loop
feed_loop_round fuel [] d some_bytes = absurd (omega arith)
feed_loop_round fuel (byte ∷ rest) d some_bytes = refl

be_word-be_bytes : (n : ℕ) → n < 4294967296 → be_word (be_bytes_32 n) ≡ n
be_word-be_bytes n h = omega arith

-- The decoder behind the header.
abbrev headed : Decoder
headed = record new { header_bytes = cmf ∷ flg ∷ []; header_filled = 2; state = body }

header_round : (rest : List ℕ) → feed_round header (cmf ∷ flg ∷ rest) new ≡ (ok rest, headed)
unfolding feed_round new validate_zlib_header
header_round rest = let two : min 2 (length (cmf ∷ flg ∷ rest)) ≡ 2 = omega arith in rw two refl

-- The answer, and the output of a decoder that takes its trailer.
abbrev Answers : Bool → Buf.Buf → Result (Unit {0}) × Decoder → Type 0
Answers true out (x, d) = (x ≡ ok tt) × (d.finished ≡ true) × (d.output ≡ out)
Answers false out (x, d) = x ≡ err (invalid_data zlib_adler_mismatch)

-- The trailer that is still in the inner decoder.
tail_lem :
    (same : Bool) (sum : ℕ) (d : Decoder)
    → d.state ≡ trailer
    → d.trailer_bytes ≡ 0 ∷ 0 ∷ 0 ∷ 0 ∷ []
    → d.trailer_filled ≡ 0
    → (sum == Adler32.value d.adler) ≡ same
    → sum < 4294967296
    → Deflate.remaining_input d.deflate ≡ be_bytes_32 sum
    → Answers same d.output (consume_deflate_tail d)
unfolding consume_deflate_tail feed_trailer_bytes feed_byte_in_trailer byte_in check_trailer
tail_lem true sum d at none zero_filled same small tail =
    rw (tail, at, none, zero_filled, be_word-be_bytes sum small, same) (refl, refl, refl)
tail_lem false sum d at none zero_filled same small tail =
    rw (tail, at, none, zero_filled, be_word-be_bytes sum small, same) refl

-- The output of the inner decoder, moved on to the output and the checksum.
abbrev moved : Deflate.Decoder → Decoder → Decoder
moved inner d = record d {
  deflate = inner;
  adler = Adler32.update (Deflate.output d.deflate) d.adler;
  output = Buf.feed (Deflate.output d.deflate) d.output;
  state = trailer;
}

-- The loop of the body, once the inner stream has ended with the four bytes of the trailer behind.
drain_lem :
    (fuel : ℕ) (same : Bool) (sum : ℕ) (d : Decoder)
    → Deflate.is_finished d.deflate ≡ true
    → Deflate.remaining_input d.deflate ≡ be_bytes_32 sum
    → d.trailer_bytes ≡ 0 ∷ 0 ∷ 0 ∷ 0 ∷ []
    → d.trailer_filled ≡ 0
    → (sum == Adler32.value (Adler32.update (Deflate.output d.deflate) d.adler)) ≡ same
    → sum < 4294967296
    → Answers same (Buf.feed (Deflate.output d.deflate) d.output) (drain (suc fuel) d)
unfolding drain take_body
drain_lem fuel same sum d ended unread none zero_filled adler small =
    let (inner, took, ended', unread') = advance-output d.deflate in
    rw (took, ended', ended)
      (tail_lem same sum (moved inner d) refl none zero_filled adler small (unread' ∙ unread))

-- A body takes all that it is fed.
abbrev emptied : Result (Unit {0}) × Decoder → Result (List ℕ) × Decoder
emptied (x, d) = and_then x d (λ u s. (ok [], s))

-- The decoder of a body, fed the stream and the trailer.
body_drain :
    (d : Decoder) (same : Bool) (bytes encoded : List ℕ) (sum : ℕ)
    → d.deflate ≡ Deflate.new
    → d.trailer_bytes ≡ 0 ∷ 0 ∷ 0 ∷ 0 ∷ []
    → d.trailer_filled ≡ 0
    → IsStream bytes encoded
    → (sum == Adler32.value (Adler32.update bytes d.adler)) ≡ same
    → sum < 4294967296
    → (out : Result (Unit {0}) × Decoder) × (feed_round body (encoded ++ be_bytes_32 sum) d
        ≡ emptied out)
      × Answers same (Buf.feed bytes d.output) out
unfolding feed_round
body_drain d same bytes encoded sum fresh none zero_filled stream adler small =
    let all = encoded ++ be_bytes_32 sum in
    let (fed, end) =
      feed-IsEnded Deflate.new all bytes encoded (be_bytes_32 sum) new-IsAtBlock stream new-holds in
    let d' = record d { deflate = (Deflate.feed all Deflate.new).1 } in
    let out : Deflate.output d'.deflate ≡ bytes =
      ended-output bytes (be_bytes_32 sum) d'.deflate end in
    let adler' : (sum == Adler32.value (Adler32.update (Deflate.output d'.deflate) d'.adler))
        ≡ same =
      ap (λ l. sum == Adler32.value (Adler32.update l d.adler)) out ∙ adler in
    let run =
      drain_lem (unread_bits d' + 1) same sum d' end.ended end.unread none zero_filled adler'
        small in
    let fuel : unread_bits d' + 2 ≡ suc (unread_bits d' + 1) = omega arith in
    (
      drain (suc (unread_bits d' + 1)) d',
      rw (fresh, fed, fuel) refl,
      subst (λ l. Answers same (Buf.feed l d.output) (drain (suc (unread_bits d' + 1)) d')) out run,
    )

-- Feeding is done behind the trailer.
round_Answers :
    (fuel : ℕ) (same : Bool) (put : Buf.Buf) (out : Result (Unit {0}) × Decoder)
    → Answers same put out
    → Answers same put (and_then (emptied out).0 (emptied out).1 (λ rest'. feed_loop fuel rest'))
unfolding feed_loop
round_Answers fuel true put out (fed, ended, same) = rw fed (refl, ended, same)
round_Answers fuel false put out failed = rw failed refl

feed_whole :
    (same : Bool) (bytes encoded : List ℕ) (sum : ℕ)
    → IsStream bytes encoded
    → (sum == Adler32.value (Adler32.update bytes Adler32.new)) ≡ same
    → sum < 4294967296
    → Answers same
        (Buf.feed bytes Buf.new)
        (feed (Container.header ++ (encoded ++ be_bytes_32 sum)) new)
unfolding feed new
feed_whole same bytes encoded sum stream adler small =
    let rest = encoded ++ be_bytes_32 sum in
    let size : length rest ≡ length encoded + 4 = length-append encoded (be_bytes_32 sum) in
    let first = feed_loop_round (suc (length rest)) (cmf ∷ flg ∷ rest) new (omega arith) in
    let second = feed_loop_round (length rest) rest headed (omega (arith, size)) in
    let (out, run, answers) =
      body_drain headed same bytes encoded sum refl refl refl stream adler small in
    rw (first, header_round rest, second, run)
      (round_Answers (length rest) same (Buf.feed bytes Buf.new) out answers)

-- A zlib stream with stored blocks with zeros for padding decompresses to their content when its
-- trailer is the checksum of that, and is the error of a mismatch otherwise.
pub decompress-trailer :
    (bytes encoded : List ℕ) (sum : ℕ)
    → IsStream bytes encoded
    → sum < 4294967296
    → decompress (Container.header ++ (encoded ++ be_bytes_32 sum)) ≡ (
        if sum == Adler32.value (Adler32.update bytes Adler32.new)
        then ok bytes
        else err (invalid_data zlib_adler_mismatch))
unfolding output advance is_finished decompress
decompress-trailer bytes encoded sum stream small =
    elim (Bool-cases (sum == Adler32.value (Adler32.update bytes Adler32.new))) [
      | inr other ↦
          rw (decompress, feed_whole false bytes encoded sum stream other small, other) refl
      | inl same ↦
          let run = feed_whole true bytes encoded sum stream same small in
          let put = Queue.get-feed bytes Buf.new Queue.new-IsValid in
          let out : Buf.get (Buf.feed bytes Buf.new) ≡ bytes = put.1 ∙ new_holds in
          let (b, took, valid, left) =
            Queue.get-advance (length bytes) (Buf.feed bytes Buf.new) put.0
              (omega (arith, ap length out)) in
          rw (decompress, run.0, run.1, run.2, out, took, same) refl
    ]
  where
    new_holds : Buf.get Buf.new ++ bytes ≡ bytes
    new_holds = unfold Buf.get Buf.new in refl

value_small :
    (bytes : List ℕ) → IsBytes bytes → Adler32.value (Adler32.update bytes Adler32.new) < 4294967296
value_small bytes small =
    let r = update-IsReduced bytes Adler32.new small new-IsReduced in
    omega (arith, value-sums (Adler32.update bytes Adler32.new) r, r.a_small, r.b_small)

-- Decompression of a zlib stream with stored blocks and the checksum of what they hold gives that.
pub decompress-container :
    (bytes encoded : List ℕ)
    → IsBytes bytes
    → IsStream bytes encoded
    → decompress (container bytes encoded) ≡ ok bytes
decompress-container bytes encoded small stream =
    let sum = Adler32.value (Adler32.update bytes Adler32.new) in
    let same : (sum == sum) ≡ true = ground arith in
    decompress-trailer bytes encoded sum stream (value_small bytes small)
    ∙ ap (λ b. if b then ok bytes else err (invalid_data zlib_adler_mismatch)) same
