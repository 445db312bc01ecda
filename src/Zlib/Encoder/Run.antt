-- ===== src/Zlib/Encoder/Run.antt =====
-- `Encoder` of src/zlib.rs with stored blocks: what feeding and finishing put out.
use mathlib.Core.Path.{subst}
use noflate.Base.{
  ℕ, ◌-◌, ◌≡◌, refl, sym, ap, ◌∙◌, true, false, List, [], ◌++◌, arith, length, length-drop, drop,
  leb, ltb, le→leb, if◌then◌else◌, IsByte, IsBytes, Bool-cases, inl, inr, All-append, be_bytes_32,
}
use noflate.Error.{ok}
use noflate.Adler32
use noflate.Adler32.Reference.{new-IsReduced, update-nil, update-append}
use noflate.Encode.Options.{EncodeOptions}
use noflate.Encode.Stored.{IsStream}
use noflate.Encode.Stream as Deflate
use noflate.Encode.Stream.Session.{IsStoring}
use noflate.Encode.Stream.Wrapped.{
  IsWrapped, with_options-IsWrapped, header-IsWrapped, feed-IsWrapped, moved-IsWrapped,
  finish-IsWrapped,
}
use noflate.Zlib.Container.{header, trailer, container}
use noflate.Zlib.Encoder.{
  Encoder, with_options, emit_header, take_deflate, feed, finish, output, advance,
}

-- The encoder once `fed` has been fed and `gone` taken from its output.
pub record IsRun (fed gone : List ℕ) (e : Encoder) : Type 0 where
  pub running : e.finishing ≡ false
  pub wrapped : IsWrapped header fed gone e.deflate e.output e.drained e.header_emitted
  pub bytes : IsBytes fed
  pub summed : e.adler ≡ Adler32.update fed Adler32.new

pub with_options-IsRun_zlib :
    (options : EncodeOptions) → IsStoring options → IsRun [] [] (with_options options)
unfolding with_options
with_options-IsRun_zlib options s = record {
  running = refl;
  wrapped = with_options-IsWrapped header options s;
  bytes = tt;
  summed = sym (update-nil Adler32.new);
}

-- The header goes out once.
emit_header-IsRun :
    (fed gone : List ℕ) (e : Encoder)
    → IsRun fed gone e
    → IsRun fed gone (emit_header e) × ((emit_header e).header_emitted ≡ true)
unfolding emit_header
emit_header-IsRun fed gone e r = elim (Bool-cases e.header_emitted) [
  | inl out ↦ simp out (r, refl)
  | inr not_out ↦
      let wrapped : IsWrapped header fed gone e.deflate e.output e.drained false =
        subst (IsWrapped header fed gone e.deflate e.output e.drained) not_out r.wrapped in
      simp not_out (
        record {
          running = r.running;
          wrapped = header-IsWrapped wrapped;
          bytes = r.bytes;
          summed = r.summed;
        },
        refl,
      )
]

-- All the inner encoder's output is moved to the output.
take_deflate-IsRun :
    (fed gone : List ℕ) (e : Encoder)
    → IsRun fed gone e
    → e.header_emitted ≡ true
    → (e' : Encoder) × (take_deflate e ≡ (ok tt, e')) × IsRun fed gone e'
unfolding take_deflate
take_deflate-IsRun fed gone e r headed =
    let (inner, took, wrapped) =
      moved-IsWrapped
        (subst (IsWrapped header fed gone e.deflate e.output e.drained) headed r.wrapped) in
    (
      record e { output = e.output ++ Deflate.output e.deflate; deflate = inner },
      rw took refl,
      record {
        running = r.running;
        wrapped =
            subst (IsWrapped header fed gone inner (e.output ++ Deflate.output e.deflate) e.drained)
              (sym headed) wrapped;
        bytes = r.bytes;
        summed = r.summed;
      },
    )

-- The encoder behind the header and the calls that are given the bytes.
abbrev summed_and_fed : List ℕ → Encoder → Encoder
summed_and_fed bytes e = record e {
  adler = Adler32.update bytes e.adler;
  deflate = (Deflate.feed bytes e.deflate).1;
}

FeedRuns : List ℕ → Encoder → Type 0
FeedRuns bytes e =
    (Deflate.feed bytes (emit_header e).deflate).0 ≡ ok tt
    → feed bytes e ≡ (
        if ltb 0 (length (Deflate.output (summed_and_fed bytes (emit_header e)).deflate))
        then take_deflate (summed_and_fed bytes (emit_header e))
        else (ok tt, summed_and_fed bytes (emit_header e)))

still_running : (e : Encoder) → e.finishing ≡ false → record e { finishing = false } ≡ e
still_running e running = ap (λ b. record e { finishing = b }) (sym running)

feed_lem : (bytes : List ℕ) (e : Encoder) → e.finishing ≡ false → FeedRuns bytes e
unfolding feed FeedRuns
feed_lem bytes e running = subst (FeedRuns bytes) (still_running e running) (λ fed. rw fed refl)

-- From an encoder that has been fed `fed`, a feed returns, and leaves one that has been fed the bytes
-- too.
pub feed-IsRun_zlib :
    (bytes fed gone : List ℕ) (e : Encoder)
    → IsBytes bytes
    → IsRun fed gone e
    → ((feed bytes e).0 ≡ ok tt) × IsRun (fed ++ bytes) gone (feed bytes e).1
unfolding FeedRuns
feed-IsRun_zlib bytes fed gone e small r =
    let (h, headed) = emit_header-IsRun fed gone e r in
    let e1 = emit_header e in
    let e' = summed_and_fed bytes e1 in
    let inner =
      feed-IsWrapped bytes
        (subst (IsWrapped header fed gone e1.deflate e1.output e1.drained) headed h.wrapped) in
    let run : IsRun (fed ++ bytes) gone e' = record {
      running = h.running;
      wrapped =
          subst (IsWrapped header (fed ++ bytes) gone e'.deflate e1.output e1.drained) (sym headed)
            inner.1;
      bytes = All-append IsByte fed bytes h.bytes small;
      summed =
          ap (Adler32.update bytes) h.summed
          ∙ sym (update-append fed bytes Adler32.new h.bytes small new-IsReduced);
    } in
    elim (Bool-cases (ltb 0 (length (Deflate.output e'.deflate)))) [
      | inl some_out ↦
          let (e2, took, run2) = take_deflate-IsRun (fed ++ bytes) gone e' run headed in
          rw (feed_lem bytes e r.running inner.0, some_out, took) (refl, run2)
      | inr no_out ↦ rw (feed_lem bytes e r.running inner.0, no_out) (refl, run)
    ]

-- The encoder once finished: `inner` is what is left of the inner one.
abbrev ended_with : Deflate.Encoder → Encoder → Encoder
ended_with inner e = record e {
  deflate = inner;
  output =
      (e.output ++ Deflate.output (Deflate.finish e.deflate).1)
      ++ be_bytes_32 (Adler32.value e.adler);
  finishing = true;
}

FinishRuns : Encoder → Type 0
FinishRuns e =
    (inner : Deflate.Encoder)
    → (Deflate.finish (emit_header e).deflate).0 ≡ ok tt
    → Deflate.advance (length (Deflate.output (Deflate.finish (emit_header e).deflate).1))
        (Deflate.finish (emit_header e).deflate).1
      ≡ ok inner
    → finish e ≡ (ok tt, ended_with inner (emit_header e))

finish_lem : (e : Encoder) → e.finishing ≡ false → FinishRuns e
unfolding finish FinishRuns
finish_lem e running =
    subst FinishRuns (still_running e running) (λ inner ended took. rw (ended, took) refl)

-- Finishing puts out the rest and the trailer: what was taken and what is there then are the whole
-- container of what was fed.
pub finish-container_zlib :
    (fed gone : List ℕ) (e : Encoder)
    → IsRun fed gone e
    → ((finish e).0 ≡ ok tt)
      × ((encoded : List ℕ) × IsStream fed encoded
          × (gone ++ output (finish e).1 ≡ container fed encoded))
unfolding output FinishRuns
finish-container_zlib fed gone e r =
    let (h, headed) = emit_header-IsRun fed gone e r in
    let e1 = emit_header e in
    let (ended, (inner, took), (encoded, stream, put)) =
      finish-IsWrapped (trailer fed)
        (subst (IsWrapped header fed gone e1.deflate e1.output e1.drained) headed h.wrapped) in
    let same : be_bytes_32 (Adler32.value e1.adler) ≡ trailer fed =
      ap (λ a. be_bytes_32 (Adler32.value a)) h.summed in
    let out = e1.output ++ Deflate.output (Deflate.finish e1.deflate).1 in
    rw (finish_lem e r.running inner ended took)
      (refl, (encoded, stream, ap (λ t. gone ++ drop e1.drained (out ++ t)) same ∙ put))

pub advance-output_zlib : (e : Encoder) → (e' : Encoder) × (advance (length (output e)) e ≡ ok e')
unfolding advance output
advance-output_zlib e =
    let fits : leb (length (drop e.drained e.output)) (length e.output - e.drained) ≡ true =
      le→leb _ _ (omega (arith, length-drop {0} e.drained e.output)) in
    rw fits (_, refl)
