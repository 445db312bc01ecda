-- ===== src/Decode/Stream/FixedFeed.antt =====
-- `feed` of `Decoder` of src/decode.rs on a stream of blocks with fixed codes.
use mathlib.Core.Path.{subst}
use noflate.Base.{
  ℕ, ◌+◌, ◌-◌, ◌*◌, ◌≤◌, ◌<◌, ◌≡◌, ◌⊎◌, inl, inr, refl, sym, ap, ◌∙◌, true, false, List, [], ◌++◌,
  append-nil, arith, length, drop,
}
use noflate.Error.{ok}
use noflate.Buf
use noflate.Buf.{Buf}
use noflate.Buf.Queue
use noflate.Bit.View.{bits, byte_bits}
use noflate.Bit.Reader.{new_seeded, committed_bytes, residual_bit_buffer, residual_bit_count}
use noflate.Bit.Reads.{length-stream}
use noflate.Bit.Refine.{available_bits-eq-length}
use noflate.Decode.Body.{max_internal_buffer}
use noflate.Decode.Body.Tokens.{Holds}
use noflate.Decode.Fixed.{FixedTables}
use noflate.Decode.Stream.{
  Decoder, drive_loop, drive_fuel, machine, feed, drive, settle, commit, is_finished,
  remaining_input,
}
use noflate.Decode.Stream.FixedPlaces.{AtHeader, InBlock, Ran, ended, yielded}
use noflate.Decode.Stream.FixedRounds.{run}
use noflate.Decode.Stream.FixedMoved.{Holds-reseeded, InBlock-moved}

-- The bits that a decoder has not decoded yet.
abbrev pub unread_bits : Decoder → ℕ
unread_bits d = d.pending_bit_count + 8 * length (Buf.get d.input)

-- A decoder with a chunk in its input.
abbrev pub fed : List ℕ → Decoder → Decoder
fed chunk d = record d { input = Buf.feed chunk d.input }

pub feed_drives :
    (chunk : List ℕ) (d : Decoder) → d.finished ≡ false → feed chunk d ≡ drive (fed chunk d)
unfolding feed
feed_drives chunk d running = rw running refl

module _ (f : FixedTables) (behind gone target : List ℕ) where
  -- A decoder before a block or within one: what it has put out, behind `gone`, and the content of the
  -- rest of the stream are `target`.
  pub record IsDecoding (d : Decoder) : Type 0 where
    pub running : d.finished ≡ false
    pub input : Queue.IsValid d.input
    pub place :
        AtHeader f (Buf.get d.input) behind gone target (machine d)
        ⊎ InBlock f (Buf.get d.input) behind gone target (machine d)

  -- A decoder at the end of the stream, with at most 7 bits buffered of what stands behind.
  pub record HasEnded (before d : Decoder) : Type 0 where
    pub ended : is_finished d ≡ true
    pub output : gone ++ d.output ≡ target
    pub unread :
        bits d.pending_bit_count d.pending_bit_buffer ++ byte_bits (remaining_input d) ≡ behind
    pub few : d.pending_bit_count ≤ 7
    pub drained : d.drained ≡ before.drained
    pub put : List ℕ
    pub grown : d.output ≡ before.output ++ put

  -- A decoder whose output is full.
  pub record HasYielded (before d : Decoder) : Type 0 where
    pub again : IsDecoding d
    pub drained : d.drained ≡ before.drained
    pub put : List ℕ
    pub grown : d.output ≡ before.output ++ put
    pub full : max_internal_buffer ≤ length d.output - d.drained
    pub fewer : length before.output ≤ before.drained → unread_bits d < unread_bits before

  pub drive-outcome :
      (d : Decoder)
      → IsDecoding d
      → ((drive d).0 ≡ ok tt) × (HasEnded d (drive d).1 ⊎ HasYielded d (drive d).1)
  unfolding drive settle commit committed_bytes residual_bit_buffer residual_bit_count is_finished
      remaining_input new_seeded
  drive-outcome d p = settled (
      run f (Buf.get d.input) behind gone target d.drained (drive_fuel (machine d)) (machine d)
        p.place (omega (arith, available_bits-eq-length (machine d).reader)))
    where
      settled :
          Ran f
            (Buf.get d.input)
            behind
            gone
            target
            d.drained
            (machine d)
            (drive_loop (drive_fuel (machine d)) d.drained (machine d))
          → ((drive d).0 ≡ ok tt) × (HasEnded d (drive d).1 ⊎ HasYielded d (drive d).1)
      settled (ended s e state holds put more out) =
          let v = holds.valid in
          let (b, taken, valid, left) =
            Queue.get-advance s.reader.byte_index d.input p.input
              (omega (arith, v.index_in, ap length holds.input)) in
          rw (e, taken)
            (
              refl,
              inl (record {
                ended = refl;
                output = put;
                unread =
                    ap (λ l. bits s.reader.bit_count s.reader.bit_buffer ++ byte_bits l)
                      (left ∙ ap (drop s.reader.byte_index) (sym holds.input))
                    ∙ holds.there;
                few = holds.few;
                drained = refl;
                put = more;
                grown = out;
              }),
            )
      settled (yielded s e block full more out fewer shrunk) =
          let v = block.holds.valid in
          let (b, taken, valid, left) =
            Queue.get-advance s.reader.byte_index d.input p.input
              (omega (arith, v.index_in, ap length block.holds.input)) in
          let r = new_seeded (Buf.get b) s.reader.bit_buffer s.reader.bit_count in
          let moved : Holds (Buf.get b) (f.coder.eob.code.width + 7)
              (block.left_digits ++ block.tail) r =
            subst
              (λ l.
                Holds l (f.coder.eob.code.width + 7) (block.left_digits ++ block.tail)
                  (new_seeded l s.reader.bit_buffer s.reader.bit_count))
              (sym left) (Holds-reseeded block.holds) in
          rw (e, taken)
            (
              refl,
              inr (record {
                again = record {
                  running = p.running;
                  input = valid;
                  place = inr (InBlock-moved f behind gone target s block r moved);
                };
                drained = refl;
                put = more;
                grown = out;
                full = full;
                fewer = λ none_left. omega (
                  arith,
                  length-stream r,
                  length-stream (machine d).reader,
                  ap length moved.there,
                  ap length block.holds.there,
                  shrunk (omega (arith, full)),
                );
              }),
            )

  -- An empty feed lets the decoder go on.
  pub feed-nil :
      (d : Decoder)
      → IsDecoding d
      → ((feed [] d).0 ≡ ok tt) × (HasEnded d (feed [] d).1 ⊎ HasYielded d (feed [] d).1)
  feed-nil d p =
      let got = Queue.get-feed [] d.input p.input in
      let same : Buf.get (Buf.feed [] d.input) ≡ Buf.get d.input = got.1 ∙ append-nil _ in
      let out = drive-outcome (fed [] d) (record {
        running = p.running;
        input = got.0;
        place =
            subst
              (λ l.
                AtHeader f l behind gone target (record (machine d) {
                  reader = new_seeded l d.pending_bit_buffer d.pending_bit_count;
                })
                ⊎ InBlock f l behind gone target (record (machine d) {
                  reader = new_seeded l d.pending_bit_buffer d.pending_bit_count;
                }))
              (sym same) p.place;
      }) in
      rw (feed_drives [] d p.running) (out.0, before_feed d same out.1)
    where
      before_feed :
          {d' : Decoder} (d : Decoder)
          → Buf.get (Buf.feed [] d.input) ≡ Buf.get d.input
          → HasEnded (fed [] d) d' ⊎ HasYielded (fed [] d) d'
          → HasEnded d d' ⊎ HasYielded d d'
      before_feed d same (inl e) = inl (record {
        ended = e.ended;
        output = e.output;
        unread = e.unread;
        few = e.few;
        drained = e.drained;
        put = e.put;
        grown = e.grown;
      })
      before_feed d same (inr y) = inr (record {
        again = y.again;
        drained = y.drained;
        put = y.put;
        grown = y.grown;
        full = y.full;
        fewer = λ none_left. omega (arith, y.fewer none_left, ap length same);
      })
