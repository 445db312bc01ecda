-- ===== src/Encode/Stream.antt =====
-- `Encoder` of src/encode.rs.
pub mod SyncFlush
pub mod Runs
pub mod StoredRun
pub mod Seen
pub mod FixedRun
pub mod Session
pub mod Wrapped
use noflate.Base.{
  ℕ, zero, suc, ◌+◌, ◌-◌, ◌*◌, Bool, true, false, ◌&&◌, Option, none, some, List, [], ◌++◌, length,
  take, drop, leb, ◌==◌, if◌then◌else◌,
}
use noflate.Error.{
  Result, ok, err, panic, out_of_fuel, invalid_data, fed_after_encoder_finish,
  sync_flush_after_finish,
}
use noflate.Exec.{Exec, ◌>>◌, modify}
use noflate.Bit.Writer.{Writer, new_seeded}
use noflate.Lz77
use noflate.Lz77.{MatchFinder, Lz77Code, fill_symbols}
use noflate.Encode.Options.{EncodeOptions, BlockKind, stored, fixed, dynamic}
use noflate.Encode.Options
use noflate.Encode.Blocks.{emit_stored, emit_fixed}
use noflate.Encode.Dynamic.{emit_dynamic}

pub record Encoder : Type 0 where
  pub options : EncodeOptions
  pub input : List ℕ
  pub output : List ℕ
  pub matcher : MatchFinder
  pub symbols : List Lz77Code
  pub drained : ℕ
  pub finishing : Bool
  pub bit_buffer : ℕ
  pub bit_count : ℕ

abbrev pub compact_threshold : ℕ
compact_threshold = 1024 * 1024

unfoldable pub with_options : EncodeOptions → Encoder
with_options options = record {
  options = options;
  input = [];
  output = [];
  matcher = Lz77.new;
  symbols = [];
  drained = 0;
  finishing = false;
  bit_buffer = 0;
  bit_count = 0;
}

unfoldable pub new : Encoder
unfolding with_options Options.new
new = with_options Options.new

unfoldable pub output : Encoder → List ℕ
output e = drop e.drained e.output

unfoldable pub is_finished : Encoder → Bool
is_finished e = e.finishing && (e.drained == length e.output)

-- The `assert!` panics before anything changes.
unfoldable pub advance : ℕ → Encoder → Result Encoder
advance n e =
    if leb n (length e.output - e.drained)
    then ok (
        if leb compact_threshold (e.drained + n)
        then record e { output = drop (e.drained + n) e.output; drained = 0 }
        else record e { drained = e.drained + n })
    else panic

unfoldable pub reset_history : Encoder → Encoder
reset_history e = record e { matcher = Lz77.new }

-- `BitWriter::new_seeded(&mut self.output, self.bit_buffer, self.bit_count)`, and back.
abbrev pub writer : Encoder → Writer
writer e = new_seeded e.output e.bit_buffer e.bit_count

abbrev pub written_by : Writer → Encoder → Encoder
written_by w e = record e { output = w.output; bit_buffer = w.bit_buffer; bit_count = w.bit_count }

-- A block with Huffman codes: `write` is `emit_fixed` or `emit_dynamic`. What a failed write has put
-- out is not modelled: no write fails.
abbrev write_block : Result Writer → Exec Encoder (Unit {0})
write_block (ok w) e = (ok tt, written_by w e)
write_block (err x) e = (err x, e)
write_block panic e = (panic, e)
write_block out_of_fuel e = (out_of_fuel, e)

pub with_symbols : List ℕ → Encoder → Encoder
with_symbols chunk e =
    let (symbols, m) = fill_symbols chunk e.matcher in record e { symbols = symbols; matcher = m }

unfoldable pub emit_stored_chunk : List ℕ → Bool → Exec Encoder (Unit {0})
unfolding emit_stored
emit_stored_chunk chunk is_final e = (ok tt, written_by (emit_stored is_final chunk (writer e)) e)

unfoldable pub emit_fixed_block_chunk : List ℕ → Bool → Exec Encoder (Unit {0})
unfolding with_symbols
emit_fixed_block_chunk chunk is_final e =
    let e' = with_symbols chunk e in write_block (emit_fixed is_final e'.symbols (writer e')) e'

unfoldable pub emit_dynamic_block_chunk : List ℕ → Bool → Exec Encoder (Unit {0})
unfolding with_symbols
emit_dynamic_block_chunk chunk is_final e =
    let e' = with_symbols chunk e in write_block (emit_dynamic is_final e'.symbols (writer e')) e'

abbrev pub emit_by : BlockKind → List ℕ → Bool → Exec Encoder (Unit {0})
emit_by stored = emit_stored_chunk
emit_by fixed = emit_fixed_block_chunk
emit_by dynamic = emit_dynamic_block_chunk

unfoldable pub emit_block_chunk : List ℕ → Bool → Exec Encoder (Unit {0})
emit_block_chunk chunk is_final e = emit_by e.options.block_kind chunk is_final e

-- `while self.input.len() >= limit`. A round takes `limit` bytes, and `limit` is positive.
pub emit_full_blocks : ℕ → ℕ → Exec Encoder (Unit {0})
emit_full_blocks zero limit e = (if leb limit (length e.input) then out_of_fuel else ok tt, e)
emit_full_blocks (suc fuel) limit e =
    let more =
      (do
        modify (λ (e : Encoder). record e { input = drop limit e.input })
        emit_block_chunk (take limit e.input) false
        emit_full_blocks fuel limit)
        e in
    if leb limit (length e.input) then more else (ok tt, e)

pub split_input : Option ℕ → Exec Encoder (Unit {0})
unfolding emit_full_blocks
split_input none e = (ok tt, e)
split_input (some limit) e = emit_full_blocks (length e.input) limit e

unfoldable pub feed : List ℕ → Exec Encoder (Unit {0})
unfolding split_input
feed bytes e =
    if e.finishing
    then (err (invalid_data fed_after_encoder_finish), e)
    else split_input e.options.max_block_input_bytes (record e { input = e.input ++ bytes })

-- `mem::take(&mut self.input)`
abbrev pub without_input : Encoder → Encoder
without_input e = record e { input = [] }

unfoldable pub finish : Exec Encoder (Unit {0})
finish e =
    if e.finishing
    then (ok tt, e)
    else emit_block_chunk e.input true (record (without_input e) { finishing = true })

unfoldable pub sync_flush : Exec Encoder (Unit {0})
sync_flush e =
    if e.finishing
    then (err (invalid_data sync_flush_after_finish), e)
    else if length e.input == 0
    then emit_stored_chunk [] false e
    else (do emit_block_chunk e.input false; emit_stored_chunk [] false) (without_input e)
