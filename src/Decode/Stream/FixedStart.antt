-- ===== src/Decode/Stream/FixedStart.antt =====
-- `feed` of `Decoder` of src/decode.rs on a whole stream of blocks with fixed codes.
use mathlib.Core.Path.{subst}
use noflate.Base.{ℕ, ◌≡◌, ◌⊎◌, inl, refl, sym, List, ◌++◌, arith, length, IsBytes}
use noflate.Error.{ok}
use noflate.Buf
use noflate.Buf.{Buf}
use noflate.Buf.Queue
use noflate.Bit.View.{byte_bits}
use noflate.Bit.Reader.{new_seeded}
use noflate.Lz77.Reach.{HasWindow}
use noflate.Encode.Fixed.{FixedStream}
use noflate.Decode.Body.Tokens.{Holds}
use noflate.Decode.Fixed.{FixedTables}
use noflate.Decode.Stream.{Decoder, machine, feed, remaining_input}
use noflate.Decode.Stream.StoredFeed.{IsAtBlock}
use noflate.Decode.Stream.FixedFeed.{
  IsDecoding, HasEnded, HasYielded, drive-outcome, fed, feed_drives,
}

fresh : (all : List ℕ) → IsBytes all → Holds all 7 (byte_bits all) (new_seeded all 0 0)
unfolding new_seeded
fresh all bytes = record {
  valid = record {
    index_in = omega arith;
    bytes = bytes;
    count_small = omega arith;
    buffer_fits = omega arith;
  };
  there = refl;
  input = refl;
  few = omega arith;
}

-- A decoder between two blocks, with the rest of the stream in its input.
pub fed-IsDecoding :
    (f : FixedTables) (behind content gone chunk : List ℕ) (d : Decoder)
    → IsAtBlock d
    → IsBytes (remaining_input d ++ chunk)
    → HasWindow (length (gone ++ d.output)) d.output
    → FixedStream f behind (gone ++ d.output) content (byte_bits (remaining_input d ++ chunk))
    → IsDecoding f behind gone ((gone ++ d.output) ++ content) (fed chunk d)
unfolding remaining_input
fed-IsDecoding f behind content gone chunk d p bytes kept blocks =
    let got = Queue.get-feed chunk d.input p.input in
    let all = Buf.get d.input ++ chunk in
    let holds : Holds (Buf.get (Buf.feed chunk d.input)) 7 (byte_bits all)
        (machine (fed chunk d)).reader =
      subst (λ l. Holds l 7 (byte_bits all) (new_seeded l d.pending_bit_buffer d.pending_bit_count))
        (sym got.1)
        (subst (λ (n : ℕ). Holds all 7 (byte_bits all) (new_seeded all n d.pending_bit_count))
          (sym p.no_buffer)
          (subst (λ (n : ℕ). Holds all 7 (byte_bits all) (new_seeded all 0 n)) (sym p.no_bits)
            (fresh all bytes))) in
    record {
      running = p.running;
      input = got.0;
      place = inl (record {
        state = p.state;
        content = content;
        digits = byte_bits all;
        blocks = blocks;
        kept = kept;
        holds = holds;
        goal = refl;
      });
    }

-- A decoder between two blocks on a byte boundary, with at least the window of all that was put out in
-- its output, fed bytes with which its input holds the rest of a stream of blocks with fixed codes.
-- The blocks may copy from all within the window, the content of earlier blocks too. The feed
-- returns, with all the content put out and at most 7 bits buffered of what stands behind, or with
-- the output full and more of the stream to decode.
pub feed-outcome :
    (f : FixedTables) (behind content gone chunk : List ℕ) (d : Decoder)
    → IsAtBlock d
    → IsBytes (remaining_input d ++ chunk)
    → HasWindow (length (gone ++ d.output)) d.output
    → FixedStream f behind (gone ++ d.output) content (byte_bits (remaining_input d ++ chunk))
    → ((feed chunk d).0 ≡ ok tt)
      × (HasEnded f behind gone ((gone ++ d.output) ++ content) (fed chunk d) (feed chunk d).1
          ⊎ HasYielded f behind gone ((gone ++ d.output) ++ content) (fed chunk d) (feed chunk d).1)
feed-outcome f behind content gone chunk d p bytes kept blocks =
    rw (feed_drives chunk d p.running) (
      drive-outcome f behind gone ((gone ++ d.output) ++ content) (fed chunk d)
        (fed-IsDecoding f behind content gone chunk d p bytes kept blocks))
