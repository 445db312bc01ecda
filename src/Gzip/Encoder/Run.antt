-- ===== src/Gzip/Encoder/Run.antt =====
-- `Encoder` of src/gzip.rs with stored blocks: what feeding and finishing put out.
use mathlib.Core.Path.{subst}
use noflate.Base.{
  ℕ, ◌+◌, ◌-◌, ◌≡◌, refl, sym, ap, ap₂, ◌∙◌, true, false, List, [], ◌++◌, arith, length,
  length-append, length-drop, drop, leb, ltb, le→leb, if◌then◌else◌, IsByte, IsBytes, Bool-cases,
  inl, inr, All-append, u32, le_bytes_32,
}
use noflate.Error.{ok}
use noflate.Crc32
use noflate.Crc32.Streaming.{update-nil_crc32, update-append_state}
use noflate.Encode.Options.{EncodeOptions}
use noflate.Encode.Stored.{IsStream}
use noflate.Encode.Stream as Deflate
use noflate.Encode.Stream.Session.{IsStoring}
use noflate.Encode.Stream.Wrapped.{
  IsWrapped, with_options-IsWrapped, header-IsWrapped, feed-IsWrapped, moved-IsWrapped,
  finish-IsWrapped,
}
use noflate.Gzip.Container.{header_bytes, trailer, container}
use noflate.Gzip.Encoder.{
  Encoder, with_options, ensure_header, take_deflate, feed, finish, output, advance,
}

-- The encoder once `fed` has been fed and `gone` taken from its output.
pub record IsRun (fed gone : List ℕ) (e : Encoder) : Type 0 where
  pub running : e.finishing ≡ false
  pub wrapped : IsWrapped header_bytes fed gone e.deflate e.output e.drained e.header_emitted
  pub bytes : IsBytes fed
  pub summed : e.crc ≡ Crc32.update fed Crc32.new
  pub sized : e.size ≡ u32 (length fed)

pub with_options-IsRun_gzip :
    (options : EncodeOptions) → IsStoring options → IsRun [] [] (with_options options)
unfolding with_options
with_options-IsRun_gzip options s = record {
  running = refl;
  wrapped = with_options-IsWrapped header_bytes options s;
  bytes = tt;
  summed = sym (update-nil_crc32 Crc32.new);
  sized = refl;
}

-- The header goes out once.
ensure_header-IsRun :
    (fed gone : List ℕ) (e : Encoder)
    → IsRun fed gone e
    → IsRun fed gone (ensure_header e) × ((ensure_header e).header_emitted ≡ true)
unfolding ensure_header
ensure_header-IsRun fed gone e r = elim (Bool-cases e.header_emitted) [
  | inl out ↦ simp out (r, refl)
  | inr not_out ↦
      let wrapped : IsWrapped header_bytes fed gone e.deflate e.output e.drained false =
        subst (IsWrapped header_bytes fed gone e.deflate e.output e.drained) not_out r.wrapped in
      simp not_out (
        record {
          running = r.running;
          wrapped = header-IsWrapped wrapped;
          bytes = r.bytes;
          summed = r.summed;
          sized = r.sized;
        },
        refl,
      )
]

-- All the inner encoder's output is moved to the output.
take_deflate-IsRun :
    (fed gone : List ℕ) (e : Encoder)
    → IsRun fed gone e
    → e.header_emitted ≡ true
    → (e' : Encoder) × (take_deflate e ≡ (ok tt, e')) × IsRun fed gone e'
unfolding take_deflate
take_deflate-IsRun fed gone e r headed =
    let (inner, took, wrapped) =
      moved-IsWrapped
        (subst (IsWrapped header_bytes fed gone e.deflate e.output e.drained) headed r.wrapped) in
    (
      record e { output = e.output ++ Deflate.output e.deflate; deflate = inner },
      rw took refl,
      record {
        running = r.running;
        wrapped =
            subst
              (IsWrapped header_bytes fed gone inner (e.output ++ Deflate.output e.deflate)
                e.drained)
              (sym headed) wrapped;
        bytes = r.bytes;
        summed = r.summed;
        sized = r.sized;
      },
    )

-- The encoder behind the header and the calls that are given the bytes.
abbrev summed_and_fed : List ℕ → Encoder → Encoder
summed_and_fed bytes e = record e {
  crc = Crc32.update bytes e.crc;
  size = u32 (e.size + u32 (length bytes));
  deflate = (Deflate.feed bytes e.deflate).1;
}

FeedRuns : List ℕ → Encoder → Type 0
FeedRuns bytes e =
    (Deflate.feed bytes (ensure_header e).deflate).0 ≡ ok tt
    → feed bytes e ≡ (
        if ltb 0 (length (Deflate.output (summed_and_fed bytes (ensure_header e)).deflate))
        then take_deflate (summed_and_fed bytes (ensure_header e))
        else (ok tt, summed_and_fed bytes (ensure_header e)))

still_running : (e : Encoder) → e.finishing ≡ false → record e { finishing = false } ≡ e
still_running e running = ap (λ b. record e { finishing = b }) (sym running)

feed_lem : (bytes : List ℕ) (e : Encoder) → e.finishing ≡ false → FeedRuns bytes e
unfolding feed FeedRuns
feed_lem bytes e running = subst (FeedRuns bytes) (still_running e running) (λ fed. rw fed refl)

-- From an encoder that has been fed `fed`, a feed returns, and leaves one that has been fed the bytes
-- too.
pub feed-IsRun_gzip :
    (bytes fed gone : List ℕ) (e : Encoder)
    → IsBytes bytes
    → IsRun fed gone e
    → ((feed bytes e).0 ≡ ok tt) × IsRun (fed ++ bytes) gone (feed bytes e).1
unfolding FeedRuns
feed-IsRun_gzip bytes fed gone e small r =
    let (h, headed) = ensure_header-IsRun fed gone e r in
    let e1 = ensure_header e in
    let e' = summed_and_fed bytes e1 in
    let inner =
      feed-IsWrapped bytes (
        subst (IsWrapped header_bytes fed gone e1.deflate e1.output e1.drained) headed h.wrapped) in
    let run : IsRun (fed ++ bytes) gone e' = record {
      running = h.running;
      wrapped =
          subst (IsWrapped header_bytes (fed ++ bytes) gone e'.deflate e1.output e1.drained)
            (sym headed) inner.1;
      bytes = All-append IsByte fed bytes h.bytes small;
      summed =
          ap (Crc32.update bytes) h.summed
          ∙ update-append_state fed bytes Crc32.new (unfold Crc32.new in omega arith) h.bytes small;
      sized = omega (arith, h.sized, length-append fed bytes);
    } in
    elim (Bool-cases (ltb 0 (length (Deflate.output e'.deflate)))) [
      | inl some_out ↦
          let (e2, took, run2) = take_deflate-IsRun (fed ++ bytes) gone e' run headed in
          rw (feed_lem bytes e r.running inner.0, some_out, took) (refl, run2)
      | inr no_out ↦ rw (feed_lem bytes e r.running inner.0, no_out) (refl, run)
    ]

-- The encoder once finished: `inner` is what is left of the inner one.
abbrev ended_with : Deflate.Encoder → Encoder → Encoder
ended_with inner e = record e {
  deflate = inner;
  output =
      (e.output ++ Deflate.output (Deflate.finish e.deflate).1)
      ++ (le_bytes_32 (Crc32.value e.crc) ++ le_bytes_32 e.size);
  finishing = true;
}

FinishRuns : Encoder → Type 0
FinishRuns e =
    (inner : Deflate.Encoder)
    → (Deflate.finish (ensure_header e).deflate).0 ≡ ok tt
    → Deflate.advance (length (Deflate.output (Deflate.finish (ensure_header e).deflate).1))
        (Deflate.finish (ensure_header e).deflate).1
      ≡ ok inner
    → finish e ≡ (ok tt, ended_with inner (ensure_header e))

finish_lem : (e : Encoder) → e.finishing ≡ false → FinishRuns e
unfolding finish FinishRuns
finish_lem e running =
    subst FinishRuns (still_running e running) (λ inner ended took. rw (ended, took) refl)

-- Finishing puts out the rest and the trailer: what was taken and what is there then are the whole
-- container of what was fed.
pub finish-container_gzip :
    (fed gone : List ℕ) (e : Encoder)
    → IsRun fed gone e
    → ((finish e).0 ≡ ok tt)
      × ((encoded : List ℕ) × IsStream fed encoded
          × (gone ++ output (finish e).1 ≡ container fed encoded))
unfolding output FinishRuns
finish-container_gzip fed gone e r =
    let (h, headed) = ensure_header-IsRun fed gone e r in
    let e1 = ensure_header e in
    let (ended, (inner, took), (encoded, stream, put)) =
      finish-IsWrapped (trailer fed) (
        subst (IsWrapped header_bytes fed gone e1.deflate e1.output e1.drained) headed h.wrapped) in
    let same : le_bytes_32 (Crc32.value e1.crc) ++ le_bytes_32 e1.size ≡ trailer fed =
      ap₂ (λ c n. le_bytes_32 (Crc32.value c) ++ le_bytes_32 n) h.summed h.sized in
    let out = e1.output ++ Deflate.output (Deflate.finish e1.deflate).1 in
    rw (finish_lem e r.running inner ended took)
      (refl, (encoded, stream, ap (λ t. gone ++ drop e1.drained (out ++ t)) same ∙ put))

pub advance-output_gzip : (e : Encoder) → (e' : Encoder) × (advance (length (output e)) e ≡ ok e')
unfolding advance output
advance-output_gzip e =
    let fits : leb (length (drop e.drained e.output)) (length e.output - e.drained) ≡ true =
      le→leb _ _ (omega (arith, length-drop {0} e.drained e.output)) in
    rw fits (_, refl)
