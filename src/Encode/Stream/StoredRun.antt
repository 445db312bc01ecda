-- ===== src/Encode/Stream/StoredRun.antt =====
-- `Encoder` of src/encode.rs with stored blocks: what feeding and finishing put out.
use mathlib.Core.Path.{subst}
use noflate.Base.{
  ℕ, ◌≤◌, ◌<◌, ◌≡◌, refl, sym, ap, ◌∙◌, Bool, true, false, List, [], ◌++◌, append_assoc, arith,
  length, drop, length-append, grown_behind,
}
use noflate.Error.{ok}
use noflate.Exec.{Exec}
use noflate.Bit.Writer.{new_seeded}
use noflate.Encode.Options.{EncodeOptions, stored}
use noflate.Encode.Blocks.{emit_stored}
use noflate.Encode.Stored.{
  aligned, IsBlocks, IsStream, IsBlocks-append, IsBlocks-IsStream, emit_stored-IsBlocks,
  emit_stored-IsStream, nil-IsBlocks,
}
pub use noflate.Encode.Stream.Runs.{HasLimit}
use noflate.Encode.Stream.Runs.{emit_full_blocks-Run, split_input-Run}
use noflate.Encode.Stream.{
  Encoder, with_options, written_by, emit_stored_chunk, emit_block_chunk, emit_full_blocks, emit_by,
  output, feed, finish, without_input,
}

-- The encoder once `fed` has been fed and `gone` taken from its output: some of what was fed was put
-- out in blocks, the rest waits.
pub record IsRun (fed gone : List ℕ) (e : Encoder) : Type 0 where
  pub kind : e.options.block_kind ≡ stored
  pub limit : HasLimit e.options.max_block_input_bytes
  pub running : e.finishing ≡ false
  pub no_buffer : e.bit_buffer ≡ 0
  pub no_bits : e.bit_count ≡ 0
  pub drained_in : e.drained ≤ length e.output
  pub emitted : List ℕ
  pub blocks : IsBlocks emitted (gone ++ drop e.drained e.output)
  pub joined : emitted ++ e.input ≡ fed

pub emit_stored_chunk_lem :
    (chunk : List ℕ) (is_final : Bool) (e : Encoder)
    → e.bit_buffer ≡ 0
    → e.bit_count ≡ 0
    → emit_stored_chunk chunk is_final e
      ≡ (ok tt, written_by (emit_stored is_final chunk (aligned e.output)) e)
unfolding emit_stored_chunk new_seeded
emit_stored_chunk_lem chunk is_final e no_buffer no_bits = simp (no_buffer, no_bits) refl

emit_block_chunk_lem :
    (chunk : List ℕ) (is_final : Bool) (e : Encoder)
    → e.options.block_kind ≡ stored
    → emit_block_chunk chunk is_final e ≡ emit_stored_chunk chunk is_final e
unfolding emit_block_chunk
emit_block_chunk_lem chunk is_final e kind = ap (λ k. emit_by k chunk is_final e) kind

-- A part of the input put out as blocks.
unfoldable pub Emits : List ℕ → List ℕ → Encoder → Exec Encoder (Unit {0}) → List ℕ → Type 0
Emits fed gone e call rest =
    (e' : Encoder) × (call (record e { input = rest }) ≡ (ok tt, e'))
    × IsRun fed gone e'
    × (e'.input ≡ rest)

pub emit_stored_chunk-IsRun :
    (chunk rest fed gone : List ℕ) (e : Encoder)
    → IsRun fed gone e
    → chunk ++ rest ≡ e.input
    → Emits fed gone e (emit_stored_chunk chunk false) rest
unfolding Emits
emit_stored_chunk-IsRun chunk rest fed gone e r parts =
    let e0 = record e { input = rest } in
    let block = emit_stored-IsBlocks chunk e.output in
    (
      written_by (aligned (e.output ++ block.0)) e0,
      emit_stored_chunk_lem chunk false e0 r.no_buffer r.no_bits
          ∙ ap (λ w. (ok tt, written_by w e0)) block.1,
      record {
        kind = r.kind;
        limit = r.limit;
        running = r.running;
        no_buffer = refl;
        no_bits = refl;
        drained_in = omega (arith, length-append e.output block.0, r.drained_in);
        emitted = r.emitted ++ chunk;
        blocks =
            subst (IsBlocks (r.emitted ++ chunk))
              (sym (grown_behind gone e.output block.0 e.drained r.drained_in))
              (IsBlocks-append r.blocks block.2);
        joined = append_assoc r.emitted chunk rest ∙ ap (λ l. r.emitted ++ l) parts ∙ r.joined;
      },
      refl,
    )

pub emit_block_chunk-IsRun :
    (chunk rest fed gone : List ℕ) (e : Encoder)
    → IsRun fed gone e
    → chunk ++ rest ≡ e.input
    → Emits fed gone e (emit_block_chunk chunk false) rest
unfolding Emits
emit_block_chunk-IsRun chunk rest fed gone e r parts =
    let (e', call, run, left) = emit_stored_chunk-IsRun chunk rest fed gone e r parts in
    (e', emit_block_chunk_lem chunk false (record e { input = rest }) r.kind ∙ call, run, left)

-- In an encoder with stored blocks, with fuel for each byte of the input and a positive limit, the
-- loop over full blocks returns, keeps what was fed and put out, and leaves less input than the limit.
pub emit_full_blocks-IsRun :
    (fuel limit : ℕ) (fed gone : List ℕ) (e : Encoder)
    → 0 < limit
    → length e.input ≤ fuel
    → IsRun fed gone e
    → ((emit_full_blocks fuel limit e).0 ≡ ok tt)
      × IsRun fed gone (emit_full_blocks fuel limit e).1
      × (length (emit_full_blocks fuel limit e).1.input < limit)
unfolding Emits
emit_full_blocks-IsRun = emit_full_blocks-Run IsRun emit_block_chunk-IsRun

-- From an encoder that has been fed `fed`, a feed returns, and leaves one that has been fed `bytes`
-- too, whatever the limit on a block's input.
pub feed-IsRun :
    (bytes fed gone : List ℕ) (e : Encoder)
    → IsRun fed gone e
    → ((feed bytes e).0 ≡ ok tt) × IsRun (fed ++ bytes) gone (feed bytes e).1
unfolding feed Emits
feed-IsRun bytes fed gone e r =
    let e' = record e { input = e.input ++ bytes; finishing = false } in
    let r' : IsRun (fed ++ bytes) gone e' = record {
      kind = r.kind;
      limit = r.limit;
      running = refl;
      no_buffer = r.no_buffer;
      no_bits = r.no_bits;
      drained_in = r.drained_in;
      emitted = r.emitted;
      blocks = r.blocks;
      joined = sym (append_assoc r.emitted e.input bytes) ∙ ap (λ l. l ++ bytes) r.joined;
    } in
    simp r.running (
      split_input-Run IsRun emit_block_chunk-IsRun e.options.max_block_input_bytes (fed ++ bytes)
        gone e' r.limit r')

-- Finishing puts out the rest: what was taken and what is there then are what was fed, in stored
-- blocks of which the last is marked.
pub finish-IsStream :
    (fed gone : List ℕ) (e : Encoder)
    → IsRun fed gone e
    → ((finish e).0 ≡ ok tt)
      × IsStream fed (gone ++ output (finish e).1)
      × ((finish e).1.drained ≡ e.drained)
unfolding finish output
finish-IsStream fed gone e r =
    let e' = record (without_input e) { finishing = true } in
    let last = emit_stored-IsStream e.input e.output in
    let block : emit_block_chunk e.input true e'
        ≡ (ok tt, written_by (aligned (e.output ++ last.0)) e') =
      emit_block_chunk_lem e.input true e' r.kind
      ∙ emit_stored_chunk_lem e.input true e' r.no_buffer r.no_bits
      ∙ ap (λ w. (ok tt, written_by w e')) last.1 in
    let stream : IsStream fed (gone ++ drop e.drained (e.output ++ last.0)) =
      subst (IsStream fed) (sym (grown_behind gone e.output last.0 e.drained r.drained_in)) (
        subst (λ l. IsStream l ((gone ++ drop e.drained e.output) ++ last.0)) r.joined
          (IsBlocks-IsStream r.blocks last.2)) in
    simp r.running (rw block (refl, stream, refl))

-- A new encoder with stored blocks has been fed nothing.
pub with_options-IsRun :
    (options : EncodeOptions)
    → options.block_kind ≡ stored
    → HasLimit options.max_block_input_bytes
    → IsRun [] [] (with_options options)
unfolding with_options
with_options-IsRun options kind limit = record {
  kind = kind;
  limit = limit;
  running = refl;
  no_buffer = refl;
  no_bits = refl;
  drained_in = omega arith;
  emitted = [];
  blocks = nil-IsBlocks;
  joined = refl;
}
