-- ===== src/Decode/Stream/PiecesFeed.antt =====
-- `feed` of `Decoder` of src/decode.rs on a stream of stored blocks in pieces.
use noflate.Base.{
  ℕ, ◌+◌, ◌-◌, ◌*◌, ◌≤◌, ◌<◌, ◌≡◌, ◌⊎◌, inl, inr, refl, ap, ◌∙◌, true, false, List, ◌++◌,
  append_assoc, arith, length, length-drop,
}
use noflate.Error.{ok}
use noflate.Buf
use noflate.Buf.Queue
use noflate.Bit.Reader.{
  available_bits, new_seeded, committed_bytes, residual_bit_buffer, residual_bit_count,
}
use noflate.Decode.Stream.{
  Decoder, drive_loop, feed, drive, settle, commit, is_finished, remaining_input,
}
use noflate.Decode.Stream.StoredPieces.{Expects}
use noflate.Decode.Stream.PiecesRounds.{Ran, paused, ended}
use noflate.Decode.Stream.PiecesRun.{run_all}

-- A decoder within a stream: its unread input and `future` are `encoded`, which holds `bytes`, and
-- `rest`.
pub record IsWithin (d : Decoder) (encoded bytes future rest : List ℕ) : Type 0 where
  pub running : d.finished ≡ false
  pub no_buffer : d.pending_bit_buffer ≡ 0
  pub expects : Expects d.state d.pending_bit_count encoded bytes
  pub input : Queue.IsValid d.input
  pub unread : remaining_input d ++ future ≡ encoded ++ rest

-- Of `bytes`, the decoder has put out `put`, and is within the stream of the others.
pub record IsFed (d : Decoder) (bytes future rest : List ℕ) (d' : Decoder) : Type 0 where
  pub put : List ℕ
  pub encoded' : List ℕ
  pub bytes' : List ℕ
  pub within : IsWithin d' encoded' bytes' future rest
  pub output : d'.output ≡ d.output ++ put
  pub drained : d'.drained ≡ d.drained
  pub joined : put ++ bytes' ≡ bytes
  pub short : length (remaining_input d') < length encoded'

-- The end of the stream, with the unread input and `future` behind it.
pub record IsDone (d : Decoder) (bytes future rest : List ℕ) (d' : Decoder) : Type 0 where
  pub ended : is_finished d' ≡ true
  pub unread : remaining_input d' ++ future ≡ rest
  pub output : d'.output ≡ d.output ++ bytes
  pub drained : d'.drained ≡ d.drained

module _ (d : Decoder) (chunk encoded bytes future rest : List ℕ)
    (w : IsWithin d encoded bytes (chunk ++ future) rest) where
  all : List ℕ
  all = Buf.get (Buf.feed chunk d.input)

  whole : all ++ future ≡ encoded ++ rest
  unfolding all remaining_input
  whole =
      ap (λ l. l ++ future) (Queue.get-feed chunk d.input w.input).1
      ∙ append_assoc (Buf.get d.input) chunk future
      ∙ w.unread

  fuel : ℕ
  fuel = 2 * (d.pending_bit_count + (length all - 0) * 8) + 3

  settled :
      Ran all future rest d.output bytes (
        drive_loop fuel d.drained (record {
          reader = new_seeded all 0 d.pending_bit_count;
          state = d.state;
          output = d.output;
        }))
      → ((feed chunk d).0 ≡ ok tt)
        × (IsDone d bytes future rest (feed chunk d).1 ⊎ IsFed d bytes future rest (feed chunk d).1)
  unfolding feed drive settle commit new_seeded available_bits committed_bytes residual_bit_buffer
      residual_bit_count is_finished remaining_input all fuel
  settled (ended i e more inside) =
      let fed = Queue.get-feed chunk d.input w.input in
      let (b, taken, valid, left) = Queue.get-advance i (Buf.feed chunk d.input) fed.0 inside in
      rw (w.running, w.no_buffer, e, taken)
        (
          refl,
          inl (record {
            ended = refl;
            unread = ap (λ l. l ++ future) left ∙ more;
            output = refl;
            drained = refl;
          }),
        )
  settled (paused i count state put encoded' bytes' e expects parts more inside short) =
      let fed = Queue.get-feed chunk d.input w.input in
      let (b, taken, valid, left) = Queue.get-advance i (Buf.feed chunk d.input) fed.0 inside in
      rw (w.running, w.no_buffer, e, taken)
        (
          refl,
          inr (record {
            put = put;
            encoded' = encoded';
            bytes' = bytes';
            within = record {
              running = refl;
              no_buffer = refl;
              expects = expects;
              input = valid;
              unread = ap (λ l. l ++ future) left ∙ more;
            };
            output = refl;
            drained = refl;
            joined = parts;
            short = omega (arith, ap length left, length-drop {0} i all, short);
          }),
        )

  -- Within a stream of stored blocks with zeros for padding, a feed returns, and the decoder is at the
  -- end of the stream with all its bytes put out, or within what is left of it, which more input has to complete.
  pub feed-IsWithin :
      ((feed chunk d).0 ≡ ok tt)
      × (IsDone d bytes future rest (feed chunk d).1 ⊎ IsFed d bytes future rest (feed chunk d).1)
  unfolding new_seeded
  feed-IsWithin = settled (
      run_all d.drained all future rest fuel d.output encoded bytes 0 d.pending_bit_count d.state
        w.expects whole (omega arith) enough)
    where
      enough : 2 * (length all - 0) + 2 ≤ fuel
      enough = unfold fuel in omega arith
