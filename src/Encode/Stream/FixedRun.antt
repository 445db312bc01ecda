-- ===== src/Encode/Stream/FixedRun.antt =====
-- `Encoder` of src/encode.rs with fixed codes: what feeding and finishing put out.
use mathlib.Core.Path.{subst}
use noflate.Base.{
  replicate, ℕ, ◌≤◌, ◌≡◌, refl, sym, ap, ◌∙◌, Bool, true, false, List, [], ◌++◌, append_assoc,
  append-nil, arith, length, length-append, drop, IsBytes, All-append, All-split, All-drop, IsByte,
}
use noflate.Error.{ok}
use noflate.Bit.View.{bits, byte_bits}
use noflate.Bit.Writer.{Writer, new_seeded}
use noflate.Bit.Writer
use noflate.Bit.Writes.{written, IsFlushed, Extends-join, written-finish}
use noflate.Lz77.{Lz77Code, fill_symbols}
use noflate.Encode.Symbols.{BlockDigits}
use noflate.Lz77.Expand.{fill_symbols-Covers}
use noflate.Encode.Options.{EncodeOptions, fixed}
use noflate.Encode.Blocks.{end_block}
use noflate.Encode.Fixed.{
  IsChunk, expand-IsChunk, IsOpen, FixedStream, last, more, fixed_header, IsEmitted,
  emit_fixed-IsEmitted,
}
use noflate.Decode.Fixed.{FixedTables}
use noflate.Encode.Stream.{
  Encoder, with_options, writer, written_by, with_symbols, emit_fixed_block_chunk, emit_block_chunk,
  emit_by, output, feed, finish, without_input,
}
use noflate.Encode.Stream.Runs.{HasLimit, Emitting, split_input-Run}
use noflate.Encode.Stream.Seen.{seen, seen-Extends, after-IsBytes}

module _ (f : FixedTables) where
  -- The encoder once `fed` has been fed and `gone` taken from its output: some of what was fed was
  -- put out in blocks, the rest waits.
  pub record IsFixedRun (fed gone : List ℕ) (e : Encoder) : Type 0 where
    pub kind : e.options.block_kind ≡ fixed
    pub limit : HasLimit e.options.max_block_input_bytes
    pub running : e.finishing ≡ false
    pub flushed : IsFlushed (writer e)
    pub drained_in : e.drained ≤ length e.output
    pub bytes : IsBytes e.input
    pub output_bytes : IsBytes e.output
    pub emitted : List ℕ
    pub blocks : IsOpen f emitted (seen gone e.drained (writer e))
    pub joined : emitted ++ e.input ≡ fed

  -- A chunk put out as a block.
  pub record Puts (is_final : Bool) (chunk : List ℕ) (e : Encoder) : Type 0 where
    pub block : IsEmitted f is_final (fill_symbols chunk e.matcher).0 (writer e)
    pub chunk_tokens : (past : List ℕ) → IsChunk past (fill_symbols chunk e.matcher).0 chunk
    pub puts :
        emit_fixed_block_chunk chunk is_final e
        ≡ (ok tt, written_by (end_block is_final block.after) (with_symbols chunk e))

  pub emit_fixed_block_chunk-Puts :
      (is_final : Bool) (chunk : List ℕ) (e : Encoder)
      → IsBytes chunk
      → IsFlushed (writer e)
      → Puts is_final chunk e
  unfolding emit_fixed_block_chunk with_symbols new_seeded
  emit_fixed_block_chunk-Puts is_final chunk e bytes flushed =
      let covers = fill_symbols-Covers chunk e.matcher bytes in
      let block =
        emit_fixed-IsEmitted f is_final (fill_symbols chunk e.matcher).0 (writer e) covers.1
          flushed in
      record {
        block = block;
        chunk_tokens = λ past. expand-IsChunk past _ chunk covers.0 covers.1 covers.2;
        puts = rw block.emits refl;
      }

  -- The digits of a block that is not the last go on with those of the blocks before.
  IsOpen-after :
      (emitted chunk seen_before : List ℕ) (ts : List Lz77Code) (digits : List ℕ)
      → IsChunk emitted ts chunk
      → BlockDigits f.lit f.dist ts digits
      → IsOpen f emitted seen_before
      → IsOpen f (emitted ++ chunk) (seen_before ++ (fixed_header false ++ digits))
  IsOpen-after emitted chunk seen_before ts digits is_chunk block before behind content' stream'
        rest =
      let joined =
        before behind (chunk ++ content') (fixed_header false ++ (digits ++ stream'))
          (more ts digits chunk content' stream' is_chunk block rest refl refl) in
      subst
        (λ l.
          FixedStream f behind [] l ((seen_before ++ (fixed_header false ++ digits)) ++ stream'))
        (sym (append_assoc emitted chunk content'))
        (subst (FixedStream f behind [] (emitted ++ (chunk ++ content')))
          (sym (append_assoc seen_before (fixed_header false ++ digits) stream')) joined)

  emit_block_chunk_lem :
      (chunk : List ℕ) (is_final : Bool) (e : Encoder)
      → e.options.block_kind ≡ fixed
      → emit_block_chunk chunk is_final e ≡ emit_fixed_block_chunk chunk is_final e
  unfolding emit_block_chunk
  emit_block_chunk_lem chunk is_final e kind = ap (λ k. emit_by k chunk is_final e) kind

  pub emit_block_chunk-IsFixedRun : Emitting IsFixedRun
  unfolding with_symbols new_seeded
  emit_block_chunk-IsFixedRun chunk rest fed gone e r parts =
      let e0 = record e { input = rest } in
      let bytes = All-split IsByte chunk rest (subst IsBytes (sym parts) r.bytes) in
      let p = emit_fixed_block_chunk-Puts false chunk e0 bytes.0 r.flushed in
      let b = p.block in
      let all_seen =
        seen-Extends gone e.drained (writer e) b.after (fixed_header false ++ b.digits) r.drained_in
          b.extends b.appended in
      (
        written_by b.after (with_symbols chunk e0),
        emit_block_chunk_lem chunk false e0 r.kind ∙ p.puts,
        record {
          kind = r.kind;
          limit = r.limit;
          running = r.running;
          flushed = b.flushed;
          drained_in = omega (
            arith,
            ap length b.extends.output,
            length-append e.output b.extends.more,
            r.drained_in,
          );
          bytes = bytes.1;
          output_bytes =
              after-IsBytes e.output b.extends.more r.output_bytes b.extends.bytes b.extends.output;
          emitted = r.emitted ++ chunk;
          blocks = subst (IsOpen f (r.emitted ++ chunk)) (sym all_seen) (
              IsOpen-after r.emitted chunk (seen gone e.drained (writer e))
                (fill_symbols chunk e.matcher).0 b.digits (p.chunk_tokens r.emitted) b.block
                r.blocks);
          joined = append_assoc r.emitted chunk rest ∙ ap (λ l. r.emitted ++ l) parts ∙ r.joined;
        },
        refl,
      )

  -- From an encoder with fixed codes that has been fed `fed`, a feed of bytes returns, and leaves one
  -- that has been fed these too.
  pub feed-IsFixedRun :
      (bytes fed gone : List ℕ) (e : Encoder)
      → IsBytes bytes
      → IsFixedRun fed gone e
      → ((feed bytes e).0 ≡ ok tt) × IsFixedRun (fed ++ bytes) gone (feed bytes e).1
  unfolding feed
  feed-IsFixedRun bytes fed gone e are_bytes r =
      let e' = record e { input = e.input ++ bytes; finishing = false } in
      let r' : IsFixedRun (fed ++ bytes) gone e' = record {
        kind = r.kind;
        limit = r.limit;
        running = refl;
        flushed = r.flushed;
        drained_in = r.drained_in;
        bytes = All-append IsByte e.input bytes r.bytes are_bytes;
        output_bytes = r.output_bytes;
        emitted = r.emitted;
        blocks = r.blocks;
        joined = sym (append_assoc r.emitted e.input bytes) ∙ ap (λ l. l ++ bytes) r.joined;
      } in
      simp r.running (
        split_input-Run IsFixedRun emit_block_chunk-IsFixedRun e.options.max_block_input_bytes
          (fed ++ bytes) gone e' r.limit r')

  pub finish-FixedStream :
      (fed gone : List ℕ) (e : Encoder)
      → IsFixedRun fed gone e
      → ((finish e).0 ≡ ok tt)
        × (pad : List ℕ) × FixedStream f pad [] fed (byte_bits (gone ++ output (finish e).1))
        × IsBytes (output (finish e).1)
  unfolding finish output with_symbols new_seeded
  finish-FixedStream fed gone e r =
      let e' = record (without_input e) { finishing = true } in
      let p = emit_fixed_block_chunk-Puts true e.input e' r.bytes r.flushed in
      let b = p.block in
      let (n, few, padded, grown, aligned) = written-finish b.after b.flushed in
      let pad = replicate n 0 in
      let put = emit_block_chunk_lem e.input true e' r.kind ∙ p.puts in
      let digits = fixed_header true ++ b.digits in
      let w = Writer.finish b.after in
      let whole : written w ≡ written (writer e) ++ (digits ++ pad) =
        padded ∙ ap (λ l. l ++ pad) b.appended ∙ append_assoc (written (writer e)) digits pad in
      let all_grown = Extends-join b.extends grown in
      let all_seen =
        seen-Extends gone e.drained (writer e) w (digits ++ pad) r.drained_in all_grown whole in
      let ends : seen gone e.drained w ≡ byte_bits (gone ++ drop e.drained w.output) =
        ap (λ k. byte_bits (gone ++ drop e.drained w.output) ++ bits k w.bit_buffer) aligned
        ∙ append-nil _ in
      let stream = r.blocks pad e.input (digits ++ pad) (
        last (fill_symbols e.input e.matcher).0 b.digits (p.chunk_tokens r.emitted) b.block refl) in
      simp r.running (
        rw put (
          refl,
          pad,
          subst (λ l. FixedStream f pad [] l (byte_bits (gone ++ drop e.drained w.output))) r.joined
              (subst (FixedStream f pad [] (r.emitted ++ e.input)) (sym all_seen ∙ ends) stream),
          All-drop IsByte e.drained w.output (
              after-IsBytes e.output all_grown.more r.output_bytes all_grown.bytes
                all_grown.output),
        ))

  -- A new encoder with fixed codes has been fed nothing.
  pub with_options-IsFixedRun :
      (options : EncodeOptions)
      → options.block_kind ≡ fixed
      → HasLimit options.max_block_input_bytes
      → IsFixedRun [] [] (with_options options)
  unfolding with_options new_seeded
  with_options-IsFixedRun options kind limit = record {
    kind = kind;
    limit = limit;
    running = refl;
    flushed = record { count_small = omega arith; buffer_fits = omega arith };
    drained_in = omega arith;
    bytes = tt;
    output_bytes = tt;
    emitted = [];
    blocks = λ behind content' stream' rest. rest;
    joined = refl;
  }
