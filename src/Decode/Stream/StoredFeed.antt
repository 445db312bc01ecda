-- ===== src/Decode/Stream/StoredFeed.antt =====
-- `feed` of `Decoder` of src/decode.rs on a stream of stored blocks.
use noflate.Base.{
  ℕ, ◌+◌, ◌-◌, ◌*◌, ◌≡◌, refl, ap, ap₂, ◌∙◌, true, false, List, ◌++◌, arith, length, length-append,
  drop, drop-append_self,
}
use noflate.Error.{ok}
use noflate.Buf
use noflate.Buf.Queue
use noflate.Bit.Reader.{
  available_bits, new_seeded, committed_bytes, residual_bit_buffer, residual_bit_count,
}
use noflate.Encode.Stored.{IsStream}
use noflate.Decode.State.{block_header}
use noflate.Decode.Stream.{
  Decoder, new, feed, drive, settle, commit, is_finished, remaining_input, output,
}
use noflate.Decode.Stream.StoredRounds.{over_stream}

-- A decoder between two blocks, on a byte boundary.
pub record IsAtBlock (d : Decoder) : Type 0 where
  pub running : d.finished ≡ false
  pub state : d.state ≡ block_header
  pub no_buffer : d.pending_bit_buffer ≡ 0
  pub no_bits : d.pending_bit_count ≡ 0
  pub input : Queue.IsValid d.input

pub new-IsAtBlock : IsAtBlock new
unfolding new
new-IsAtBlock = record {
  running = refl;
  state = refl;
  no_buffer = refl;
  no_bits = refl;
  input = Queue.new-IsValid;
}

-- What is left of a decoder `d` behind the end of a stream of `bytes`, with `rest` unread.
pub record IsEnded (d : Decoder) (bytes rest : List ℕ) (d' : Decoder) : Type 0 where
  pub ended : is_finished d' ≡ true
  pub unread : remaining_input d' ≡ rest
  pub output : d'.output ≡ d.output ++ bytes
  pub drained : d'.drained ≡ d.drained
  pub input : Queue.IsValid d'.input

-- A new decoder holds no input.
pub new-holds : {chunk : List ℕ} → remaining_input new ++ chunk ≡ chunk
unfolding remaining_input new Buf.get Buf.new
new-holds = refl

-- What can be taken from a decoder that was new before the stream.
pub ended-output :
    (bytes rest : List ℕ) (d' : Decoder) → IsEnded new bytes rest d' → output d' ≡ bytes
unfolding output new
ended-output bytes rest d' e = ap₂ drop e.drained e.output

-- A decoder between two blocks, fed a chunk with which its input holds a whole stream of stored
-- blocks with zeros for padding: it takes that stream and no byte more, puts its content out, and has
-- ended.
pub feed-IsEnded :
    (d : Decoder) (chunk bytes encoded rest : List ℕ)
    → IsAtBlock d
    → IsStream bytes encoded
    → remaining_input d ++ chunk ≡ encoded ++ rest
    → ((feed chunk d).0 ≡ ok tt) × IsEnded d bytes rest (feed chunk d).1
unfolding feed drive settle commit new_seeded available_bits committed_bytes residual_bit_buffer
    residual_bit_count remaining_input is_finished
feed-IsEnded d chunk bytes encoded rest p stream unread =
    let fed = Queue.get-feed chunk d.input p.input in
    let all = Buf.get (Buf.feed chunk d.input) in
    let whole : all ≡ encoded ++ rest = fed.1 ∙ unread in
    let size : length all ≡ length encoded + length rest =
      ap length whole ∙ length-append encoded rest in
    let fuel = 2 * (0 + (length all - 0) * 8) + 3 in
    let run =
      over_stream d.drained all d.output bytes encoded 0 fuel rest stream whole
        (omega (arith, size)) in
    let taken =
      Queue.get-advance (0 + length encoded) (Buf.feed chunk d.input) fed.0 (omega (arith, size)) in
    let left : drop (0 + length encoded) all ≡ rest =
      ap (λ k. drop k all) (omega arith)
      ∙ ap (drop (length encoded)) whole
      ∙ drop-append_self encoded rest in
    rw (p.running, p.state, p.no_buffer, p.no_bits, run, taken.1)
      (
        refl,
        record {
          ended = refl;
          unread = taken.3 ∙ left;
          output = refl;
          drained = refl;
          input = taken.2;
        },
      )
