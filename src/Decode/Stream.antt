-- ===== src/Decode/Stream.antt =====
-- `Decoder` of src/decode.rs, and the one-shot function of src/deflate.rs.
pub mod Failure
pub mod StoredSteps
pub mod StoredWaits
pub mod StoredPieces
pub mod PiecesRounds
pub mod PiecesStates
pub mod PiecesRun
pub mod PiecesFeed
pub mod PiecesAll
pub mod StoredRounds
pub mod StoredFeed
pub mod FixedSteps
pub mod FixedPlaces
pub mod FixedRounds
pub mod FixedMoved
pub mod FixedFeed
pub mod FixedStart
pub mod FixedTaken
pub mod Taken
use noflate.Base.{
  ℕ, zero, suc, ◌+◌, ◌-◌, ◌*◌, min, Bool, true, false, not, ◌&&◌, ◌||◌, List, [], length, drop, leb,
  ltb, ◌==◌, if◌then◌else◌,
}
use noflate.Error.{Result, ok, err, panic, out_of_fuel, invalid_data, fed_after_deflate_end}
use noflate.Exec.{Exec}
use noflate.Symbol.{window_size}
use noflate.Buf
use noflate.Buf.{Buf}
use noflate.Bit.Reader.{
  new_seeded, available_bits, committed_bytes, residual_bit_buffer, residual_bit_count,
}
use noflate.Decode.State.{
  DecodeState, StepOutcome, Machine, block_header, progress, need_more_bytes, yield, done,
}
use noflate.Decode.Body.{step}

pub record Decoder : Type 0 where
  pub input : Buf
  pub output : List ℕ
  pub drained : ℕ
  pub state : DecodeState
  pub pending_bit_buffer : ℕ
  pub pending_bit_count : ℕ
  pub finished : Bool

abbrev pub compact_threshold : ℕ
compact_threshold = 1024 * 1024

unfoldable pub new : Decoder
new = record {
  input = Buf.new;
  output = [];
  drained = 0;
  state = block_header;
  pending_bit_buffer = 0;
  pending_bit_count = 0;
  finished = false;
}

unfoldable pub output : Decoder → List ℕ
output d = drop d.drained d.output

unfoldable pub is_finished : Decoder → Bool
is_finished d = d.finished

unfoldable pub remaining_input : Decoder → List ℕ
remaining_input d = Buf.get d.input

unfoldable pub maybe_compact : Decoder → Decoder
maybe_compact d =
    let len = length d.output in
    let keep_from = min d.drained (len - window_size) in
    if ltb len compact_threshold || (keep_from == 0)
    then d
    else record d { output = drop keep_from d.output; drained = d.drained - keep_from }

-- The `assert!` panics before anything changes.
unfoldable pub advance : ℕ → Decoder → Result Decoder
unfolding maybe_compact
advance n d =
    if leb n (length d.output - d.drained)
    then ok (maybe_compact (record d { drained = d.drained + n }))
    else panic

-- What the loop of `drive` makes of an outcome: its `finished`, or another round.
pub drive_next : Exec Machine Bool → Result StepOutcome → Exec Machine Bool
drive_next again (ok progress) s = again s
drive_next again (ok need_more_bytes) s = (ok false, s)
drive_next again (ok yield) s = (ok false, s)
drive_next again (ok done) s = (ok true, s)
drive_next again (err e) s = (err e, s)
drive_next again panic s = (panic, s)
drive_next again out_of_fuel s = (out_of_fuel, s)

pub drive_loop : ℕ → ℕ → Exec Machine Bool
unfolding drive_next
drive_loop zero drained s = (out_of_fuel, s)
drive_loop (suc fuel) drained s =
    let (x, s') = step drained s in drive_next (drive_loop fuel drained) x s'

-- A step that makes progress takes a bit of the input, but for the one that leaves a stored body.
abbrev pub drive_fuel : Machine → ℕ
drive_fuel s = 2 * available_bits s.reader + 3

abbrev pub machine : Decoder → Machine
machine d = record {
  reader = new_seeded (Buf.get d.input) d.pending_bit_buffer d.pending_bit_count;
  state = d.state;
  output = d.output;
}

-- `drive` leaves by `?` where a step fails, with the state and the output as that step left them.
abbrev left_by : Machine → Decoder → Decoder
left_by s d = record d { output = s.output; state = s.state }

-- `self.input.advance(consumed)` and the assignments behind it.
pub commit : Machine → Bool → Result Buf → Exec Decoder (Unit {0})
commit s ended (ok input) d = (
  ok tt,
  record d {
    input = input;
    output = s.output;
    state = s.state;
    pending_bit_buffer = residual_bit_buffer s.reader;
    pending_bit_count = residual_bit_count s.reader;
    finished = ended || d.finished;
  },
)
commit s ended (err e) d = (err e, left_by s d)
commit s ended panic d = (panic, left_by s d)
commit s ended out_of_fuel d = (out_of_fuel, left_by s d)

-- What `drive` does after its loop.
pub settle : Machine → Result Bool → Exec Decoder (Unit {0})
unfolding commit
settle s (ok ended) d = commit s ended (Buf.advance (committed_bytes s.reader) d.input) d
settle s (err e) d = (err e, left_by s d)
settle s panic d = (panic, left_by s d)
settle s out_of_fuel d = (out_of_fuel, left_by s d)

pub drive : Exec Decoder (Unit {0})
unfolding drive_loop settle
drive d = let s = machine d in let (x, s') = drive_loop (drive_fuel s) d.drained s in settle s' x d

-- Bytes after the end of the stream are an error; an empty feed is not.
unfoldable pub feed : List ℕ → Exec Decoder (Unit {0})
unfolding drive
feed bytes d =
    if d.finished && not (length bytes == 0)
    then (err (invalid_data fed_after_deflate_end), d)
    else drive (record d { input = Buf.feed bytes d.input })
