-- ===== src/Gzip/Decoder/Whole.antt =====
-- `Decoder` of src/gzip.rs, fed a whole gzip stream with stored blocks at once.
use mathlib.Core.Path.{subst}
use noflate.Base.{
  Bool, false, not, Bool-cases, inl, inr, if◌then◌else◌, ℕ, suc, ◌+◌, ◌<◌, ◌≡◌, refl, ap, ap₂, ◌∙◌,
  true, List, [], ◌∷◌, ◌++◌, arith, length, length-append, min, ◌==◌, le_bytes_32, replicate, u32,
}
use noflate.Error.{Result, ok, err, invalid_data, gzip_crc_mismatch, gzip_isize_mismatch}
use noflate.Exec.{and_then, ◌>>=◌}
use noflate.Crc32
use noflate.Buf
use noflate.Buf.Queue
use noflate.Encode.Stored.{IsStream}
use noflate.Decode.Stream as Deflate
use noflate.Decode.Stream.StoredFeed.{new-IsAtBlock, new-holds, feed-IsEnded, ended-output}
use noflate.Gzip.Header.{Header, State, fixed_header, body, trailer}
use noflate.Gzip.Header
use noflate.Gzip.Container.{header_bytes, container}
use noflate.Gzip.Decoder.{
  Decoder, new, output, is_finished, feed, feed_loop, feed_round, drain, unread_bits, decompress,
  advance,
}
use noflate.Gzip.Decoder.Trailer.{Answers, drain_lem}

-- A round of the loop, while there is input.
feed_loop_round :
    (fuel : ℕ) (rest : List ℕ) (d : Decoder)
    → 0 < length rest
    → feed_loop (suc fuel) rest d ≡ (feed_round d.state rest >>= λ rest'. feed_loop fuel rest') d
unfolding feed_loop
feed_loop_round fuel [] d some_bytes = absurd (omega arith)
feed_loop_round fuel (byte ∷ rest) d some_bytes = refl

feed_loop_ok :
    (fuel : ℕ) (rest rest' : List ℕ) (d d' : Decoder)
    → 0 < length rest
    → feed_round d.state rest d ≡ (ok rest', d')
    → feed_loop (suc fuel) rest d ≡ feed_loop fuel rest' d'
feed_loop_ok fuel rest rest' d d' some_bytes e =
    feed_loop_round fuel rest d some_bytes
    ∙ ap (λ (x, s). and_then x s (λ rest'. feed_loop fuel rest')) e

-- The decoder behind the header.
abbrev headed : Decoder
headed = record new {
  header = record Header.new { header_bytes = header_bytes; header_filled = 10; state = body };
}

header_lem :
    (rest : List ℕ) → feed_round fixed_header (header_bytes ++ rest) new ≡ (ok rest, headed)
unfolding feed_round new Header.new Header.header_round Header.advance_to_next_header_state
header_lem rest = let ten : min 10 (length (header_bytes ++ rest)) ≡ 10 = omega arith in rw ten refl

-- A body takes all that it is fed.
abbrev emptied : Result (Unit {0}) × Decoder → Result (List ℕ) × Decoder
emptied (x, d) = and_then x d (λ u s. (ok [], s))

module _ (same same' : Bool) (bytes encoded : List ℕ) (sum size : ℕ)
    (stream : IsStream bytes encoded)
    (summed : (sum == Crc32.value (Crc32.update bytes Crc32.new)) ≡ same)
    (sized : (size == u32 (length bytes)) ≡ same') (small : sum < 4294967296)
    (small' : size < 4294967296) where
  words : List ℕ
  words = le_bytes_32 sum ++ le_bytes_32 size

  -- The decoder of a body, fed the stream and the trailer.
  body_drain :
      (d : Decoder)
      → d.deflate ≡ Deflate.new
      → d.trailer_bytes ≡ replicate 8 0
      → d.trailer_filled ≡ 0
      → d.crc ≡ Crc32.new
      → d.size ≡ 0
      → (out : Result (Unit {0}) × Decoder) × (feed_round body (encoded ++ words) d ≡ emptied out)
        × Answers same same' (Buf.feed bytes d.output) out
  unfolding feed_round words
  body_drain d fresh none zero_filled crc empty =
      let all = encoded ++ words in
      let (fed, end) =
        feed-IsEnded Deflate.new all bytes encoded words new-IsAtBlock stream new-holds in
      let d' = record d { deflate = (Deflate.feed all Deflate.new).1 } in
      let out : Deflate.output d'.deflate ≡ bytes = ended-output bytes words d'.deflate end in
      let crc' : (sum == Crc32.value (Crc32.update (Deflate.output d'.deflate) d'.crc)) ≡ same =
        ap₂ (λ l c. sum == Crc32.value (Crc32.update l c)) out crc ∙ summed in
      let count : u32 (d'.size + u32 (length (Deflate.output d'.deflate))) ≡ u32 (length bytes) =
        omega (arith, ap length out, empty) in
      let fuel : unread_bits d' + 2 ≡ suc (unread_bits d' + 1) = omega arith in
      let run =
        drain_lem (unread_bits d' + 1) same same' sum size d' end.ended end.unread none zero_filled
          crc' (ap (λ n. size == n) count ∙ sized) small small' in
      (
        drain (suc (unread_bits d' + 1)) d',
        rw (fresh, fed, fuel) refl,
        subst (λ l. Answers same same' (Buf.feed l d.output) (drain (suc (unread_bits d' + 1)) d'))
            out run,
      )

  feed_whole :
      Answers same same' (Buf.feed bytes Buf.new) (feed (header_bytes ++ (encoded ++ words)) new)
  unfolding feed new Header.new words
  feed_whole =
      let rest = encoded ++ words in
      let long : length rest ≡ length encoded + 8 = length-append encoded words in
      let fuel : length (header_bytes ++ rest) + 2 ≡ suc (suc (length rest + 10)) = omega arith in
      let first =
        feed_loop_ok (suc (length rest + 10)) (header_bytes ++ rest) rest new headed (omega arith)
          (header_lem rest) in
      let second = feed_loop_round (length rest + 10) rest headed (omega (arith, long)) in
      let (out, run, answers) = body_drain headed refl refl refl refl refl in
      rw (fuel, first, second, run)
        (round_Answers (length rest + 10) same same' (Buf.feed bytes Buf.new) out answers)
    where
      -- Feeding is done behind the trailer.
      round_Answers :
          (fuel : ℕ) (same same' : Bool) (put : Buf.Buf) (out : Result (Unit {0}) × Decoder)
          → Answers same same' put out
          → Answers same same' put
              (and_then (emptied out).0 (emptied out).1 (λ rest'. feed_loop fuel rest'))
      round_Answers fuel true true put out (fed, ended, kept) =
          unfold feed_loop in rw fed (refl, ended, kept)
      round_Answers fuel true false put out failed = rw failed refl
      round_Answers fuel false any put out failed = rw failed refl

-- A gzip stream with stored blocks with zeros for padding decompresses to their content when its
-- trailer is the checksum and the length of that; a wrong checksum is the one error, and a wrong length behind a right checksum the
-- other.
pub decompress-trailer_gzip :
    (bytes encoded : List ℕ) (sum size : ℕ)
    → IsStream bytes encoded
    → sum < 4294967296
    → size < 4294967296
    → decompress (header_bytes ++ (encoded ++ (le_bytes_32 sum ++ le_bytes_32 size))) ≡ (
        if not (sum == Crc32.value (Crc32.update bytes Crc32.new))
        then err (invalid_data gzip_crc_mismatch)
        else if not (size == u32 (length bytes))
        then err (invalid_data gzip_isize_mismatch)
        else ok bytes)
unfolding output advance is_finished decompress words
decompress-trailer_gzip bytes encoded sum size stream small small' =
    elim (Bool-cases (sum == Crc32.value (Crc32.update bytes Crc32.new))) [
      | inr other ↦
          let run =
            feed_whole false (size == u32 (length bytes)) bytes encoded sum size stream other refl
              small small' in
          rw (decompress, run, other) refl
      | inl same ↦ elim (Bool-cases (size == u32 (length bytes))) [
        | inr long ↦
            rw
              (
                decompress,
                feed_whole true false bytes encoded sum size stream same long small small',
                same,
                long,
              )
              refl
        | inl sized ↦
            let run = feed_whole true true bytes encoded sum size stream same sized small small' in
            let put = Queue.get-feed bytes Buf.new Queue.new-IsValid in
            let out : Buf.get (Buf.feed bytes Buf.new) ≡ bytes = put.1 ∙ new_holds in
            let (b, took, valid, left) =
              Queue.get-advance (length bytes) (Buf.feed bytes Buf.new) put.0
                (omega (arith, ap length out)) in
            rw (decompress, run.0, run.1, run.2, out, took, same, sized) refl
      ]
    ]
  where
    new_holds : Buf.get Buf.new ++ bytes ≡ bytes
    new_holds = unfold Buf.get Buf.new in refl

-- Decompression of a gzip stream with stored blocks, with the checksum and the length of what they
-- hold, gives that.
pub decompress-container_gzip :
    (bytes encoded : List ℕ)
    → IsStream bytes encoded
    → decompress (container bytes encoded) ≡ ok bytes
decompress-container_gzip bytes encoded stream =
    let sum = Crc32.value (Crc32.update bytes Crc32.new) in
    let same : (sum == sum) ≡ true = ground arith in
    let same' : (u32 (length bytes) == u32 (length bytes)) ≡ true = ground arith in
    let small : sum < 4294967296 = unfold Crc32.value in omega arith in
    decompress-trailer_gzip bytes encoded sum (u32 (length bytes)) stream small (omega arith)
    ∙ ap₂
        (λ b c.
          if not b
          then err (invalid_data gzip_crc_mismatch)
          else if not c
          then err (invalid_data gzip_isize_mismatch)
          else ok bytes)
        same same'
