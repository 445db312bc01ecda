-- ===== src/Encode/Stream/Session.antt =====
-- The calls on an `Encoder` of src/encode.rs between its creation and `finish`, in any order.
use mathlib.Core.Path.{subst}
use noflate.Base.{
  ℕ, ◌+◌, ◌-◌, ◌≤◌, ◌≡◌, refl, sym, ap, ap₂, ◌∙◌, Bool, false, if◌then◌else◌, List, [], ◌++◌,
  append_assoc, append-nil, arith, length, length-drop, take, drop, drop-drop, take-append-drop,
  leb, ◌==◌, le→leb, Bool-cases, inl, inr, true,
}
use noflate.Error.{Result, ok, err, invalid_data, sync_flush_after_finish}
use noflate.Exec.{◌>>◌}
use noflate.Encode.Options.{EncodeOptions, stored}
use noflate.Encode.Stored.{IsBlocks, IsStream}
use noflate.Encode.Stream.{
  Encoder, with_options, compact_threshold, output, advance, reset_history, feed, sync_flush,
  finish, without_input, emit_block_chunk, emit_stored_chunk,
}
use noflate.Encode.Stream.StoredRun.{
  HasLimit, IsRun, Emits, emit_stored_chunk-IsRun, emit_block_chunk-IsRun, feed-IsRun,
  finish-IsStream, with_options-IsRun,
}

-- The encoder after calls that fed it `fed` in all, and took `gone` in all from its output.
pub data Session (options : EncodeOptions) : List ℕ → List ℕ → Encoder → Type 0 where
  opened : Session options [] [] (with_options options)
  fed_more :
      {fed gone : List ℕ} {e : Encoder}
      → Session options fed gone e
      → (bytes : List ℕ) → Session options (fed ++ bytes) gone (feed bytes e).1
  taken :
      {fed gone : List ℕ} {e : Encoder}
      → Session options fed gone e
      → (n : ℕ) (e' : Encoder) → n ≤ length (output e)
      → advance n e ≡ ok e'
      → Session options fed (gone ++ take n (output e)) e'
  flushed :
      {fed gone : List ℕ} {e : Encoder}
      → Session options fed gone e
      → Session options fed gone (sync_flush e).1
  forgotten :
      {fed gone : List ℕ} {e : Encoder}
      → Session options fed gone e
      → Session options fed gone (reset_history e)

-- The options put stored blocks out, with no limit on a block's input or a positive one.
pub record IsStoring (options : EncodeOptions) : Type 0 where
  pub kind : options.block_kind ≡ stored
  pub limit : HasLimit options.max_block_input_bytes

-- Output within the encoder's can be taken.
pub advance-IsRun :
    (n : ℕ) (fed gone : List ℕ) (e : Encoder)
    → IsRun fed gone e
    → n ≤ length (output e)
    → (e' : Encoder) × (advance n e ≡ ok e') × IsRun fed (gone ++ take n (output e)) e'
unfolding advance output
advance-IsRun n fed gone e r there =
    let fits : leb n (length e.output - e.drained) ≡ true =
      le→leb _ _ (omega (arith, length-drop {0} e.drained e.output)) in
    let inside : e.drained + n ≤ length e.output =
      omega (arith, length-drop {0} e.drained e.output, r.drained_in) in
    let moved : gone ++ drop e.drained e.output
        ≡ (gone ++ take n (drop e.drained e.output)) ++ drop (e.drained + n) e.output =
      ap (λ l. gone ++ l)
        (sym (take-append-drop n (drop e.drained e.output))
          ∙ ap (λ l. take n (drop e.drained e.output) ++ l) (drop-drop n e.drained e.output))
      ∙ sym
          (append_assoc gone (take n (drop e.drained e.output)) (drop (e.drained + n) e.output)) in
    let blocks = subst (IsBlocks r.emitted) moved r.blocks in
    elim (Bool-cases (leb compact_threshold (e.drained + n))) [
      | inl large ↦ (
        record e { output = drop (e.drained + n) e.output; drained = 0 },
        rw (fits, large) refl,
        record {
          kind = r.kind;
          limit = r.limit;
          running = r.running;
          no_buffer = r.no_buffer;
          no_bits = r.no_bits;
          drained_in = omega arith;
          emitted = r.emitted;
          blocks = blocks;
          joined = r.joined;
        },
      )
      | inr small ↦ (
        record e { drained = e.drained + n },
        rw (fits, small) refl,
        record {
          kind = r.kind;
          limit = r.limit;
          running = r.running;
          no_buffer = r.no_buffer;
          no_bits = r.no_bits;
          drained_in = inside;
          emitted = r.emitted;
          blocks = blocks;
          joined = r.joined;
        },
      )
    ]

-- All the output can be taken, from a finished encoder too.
pub advance-output_encoder :
    (e : Encoder) → (e' : Encoder) × (advance (length (output e)) e ≡ ok e')
unfolding advance output
advance-output_encoder e =
    let fits : leb (length (drop e.drained e.output)) (length e.output - e.drained) ≡ true =
      le→leb _ _ (omega (arith, length-drop {0} e.drained e.output)) in
    rw fits (_, refl)

unfoldable pub flush_by : Encoder → Bool → Bool → Result (Unit {0}) × Encoder
flush_by e finishing none =
    if finishing
    then (err (invalid_data sync_flush_after_finish), e)
    else if none
    then emit_stored_chunk [] false e
    else (do emit_block_chunk e.input false; emit_stored_chunk [] false) (without_input e)

pub sync_flush_lem :
    (e : Encoder) (none : Bool)
    → e.finishing ≡ false
    → (length e.input == 0) ≡ none
    → sync_flush e ≡ flush_by e false none
unfolding sync_flush flush_by
sync_flush_lem e none running input = ap₂ (flush_by e) running input

-- A flush returns, and puts out what waits.
pub sync_flush-IsRun :
    (fed gone : List ℕ) (e : Encoder)
    → IsRun fed gone e
    → ((sync_flush e).0 ≡ ok tt) × IsRun fed gone (sync_flush e).1
unfolding Emits flush_by
sync_flush-IsRun fed gone e r = elim (Bool-cases (length e.input == 0)) [
  | inl none ↦
      let (e', call, run, left) = emit_stored_chunk-IsRun [] e.input fed gone e r refl in
      rw (sync_flush_lem e true r.running none, call) (refl, run)
  | inr pending ↦
      let (e1, call1, run1, left1) =
        emit_block_chunk-IsRun e.input [] fed gone e r (append-nil e.input) in
      let (e2, call2, run2, left2) = emit_stored_chunk-IsRun [] e1.input fed gone e1 run1 refl in
      rw (sync_flush_lem e false r.running pending, call1, call2) (refl, run2)
]

-- The match finder has no part in stored blocks.
reset_history-IsRun :
    (fed gone : List ℕ) (e : Encoder) → IsRun fed gone e → IsRun fed gone (reset_history e)
unfolding reset_history
reset_history-IsRun fed gone e r = record {
  kind = r.kind;
  limit = r.limit;
  running = r.running;
  no_buffer = r.no_buffer;
  no_bits = r.no_bits;
  drained_in = r.drained_in;
  emitted = r.emitted;
  blocks = r.blocks;
  joined = r.joined;
}

Session-IsRun :
    {options : EncodeOptions} {fed gone : List ℕ} {e : Encoder}
    → IsStoring options
    → Session options fed gone e
    → IsRun fed gone e
Session-IsRun {options} s opened = with_options-IsRun options s.kind s.limit
Session-IsRun s (fed_more {fed} {gone} {e} calls bytes) =
    (feed-IsRun bytes fed gone e (Session-IsRun s calls)).1
Session-IsRun s (taken {fed} {gone} {e} calls n e' there took) =
    let (e2, took2, run) = advance-IsRun n fed gone e (Session-IsRun s calls) there in
    let same : e2 ≡ e' = cc in subst (IsRun fed (gone ++ take n (output e))) same run
Session-IsRun s (flushed {fed} {gone} {e} calls) =
    (sync_flush-IsRun fed gone e (Session-IsRun s calls)).1
Session-IsRun s (forgotten {fed} {gone} {e} calls) =
    reset_history-IsRun fed gone e (Session-IsRun s calls)

-- However the calls of feeding, flushing, taking output and forgetting the history are ordered, an
-- encoder with stored blocks finishes, and what was taken with what is left then is what was fed, in
-- stored blocks of which the last, and only that, is marked. The options set no limit on the input of a
-- block, or a positive one.
pub finish-Session :
    {options : EncodeOptions} {fed gone : List ℕ} {e : Encoder}
    → IsStoring options
    → Session options fed gone e
    → ((finish e).0 ≡ ok tt) × IsStream fed (gone ++ output (finish e).1)
finish-Session {options} {fed} {gone} {e} s calls =
    let done = finish-IsStream fed gone e (Session-IsRun s calls) in (done.0, done.1)
