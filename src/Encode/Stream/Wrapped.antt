-- ===== src/Encode/Stream/Wrapped.antt =====
-- An `Encoder` of src/encode.rs with stored blocks inside the encoder of a container, as those of
-- src/zlib.rs and src/gzip.rs hold it: a header, then what is moved from the inner output.
use mathlib.Core.Path.{subst}
use noflate.Base.{
  ℕ, ◌≤◌, ◌≡◌, sym, ap, ◌∙◌, Bool, true, false, List, [], ◌++◌, append_assoc, append-nil, arith,
  length, length-append, drop, take-le, grown_behind, if◌then◌else◌,
}
use noflate.Error.{ok}
use noflate.Encode.Options.{EncodeOptions}
use noflate.Encode.Stored.{IsStream}
use noflate.Encode.Stream.{Encoder, with_options, output, advance, feed, finish}
use noflate.Encode.Stream.StoredRun.{IsRun, with_options-IsRun, feed-IsRun, finish-IsStream}
use noflate.Encode.Stream.Session.{IsStoring, advance-IsRun, advance-output_encoder}

-- The header, until it is put out.
abbrev pub due : List ℕ → Bool → List ℕ
due header emitted = if emitted then [] else header

-- `out` is the outer output, of which `drained` bytes are taken now and `gone` in all; the bytes
-- put out are the header and those taken from the inner encoder.
pub record IsWrapped (header fed gone : List ℕ) (e : Encoder) (out : List ℕ) (drained : ℕ)
    (emitted : Bool) : Type 0 where
  pub drained_in : drained ≤ length out
  pub inner_gone : List ℕ
  pub inner : IsRun fed inner_gone e
  pub put : (gone ++ drop drained out) ++ due header emitted ≡ header ++ inner_gone

pub with_options-IsWrapped :
    (header : List ℕ) (options : EncodeOptions)
    → IsStoring options
    → IsWrapped header [] [] (with_options options) [] 0 false
with_options-IsWrapped header options s = record {
  drained_in = omega arith;
  inner_gone = [];
  inner = with_options-IsRun options s.kind s.limit;
  put = sym (append-nil header);
}

module _ {header fed gone : List ℕ} {e : Encoder} {out : List ℕ} {drained : ℕ} where
  -- The header goes out.
  pub header-IsWrapped :
      IsWrapped header fed gone e out drained false
      → IsWrapped header fed gone e (out ++ header) drained true
  header-IsWrapped w = record {
    drained_in = omega (arith, length-append out header, w.drained_in);
    inner_gone = w.inner_gone;
    inner = w.inner;
    put =
        append-nil (gone ++ drop drained (out ++ header))
        ∙ grown_behind gone out header drained w.drained_in
        ∙ w.put;
  }

  pub feed-IsWrapped :
      (bytes : List ℕ)
      → IsWrapped header fed gone e out drained true
      → ((feed bytes e).0 ≡ ok tt)
        × IsWrapped header (fed ++ bytes) gone (feed bytes e).1 out drained true
  feed-IsWrapped bytes w =
      let (fed, run) = feed-IsRun bytes fed w.inner_gone e w.inner in
      (
        fed,
        record { drained_in = w.drained_in; inner_gone = w.inner_gone; inner = run; put = w.put },
      )

  -- All the inner output is moved to the outer one.
  pub moved-IsWrapped :
      IsWrapped header fed gone e out drained true
      → (e' : Encoder) × (advance (length (output e)) e ≡ ok e')
        × IsWrapped header fed gone e' (out ++ output e) drained true
  moved-IsWrapped w =
      let produced = output e in
      let (e', took, run) =
        advance-IsRun (length produced) fed w.inner_gone e w.inner (omega arith) in
      (
        e',
        took,
        record {
          drained_in = omega (arith, length-append out produced, w.drained_in);
          inner_gone = w.inner_gone ++ produced;
          inner =
              subst (λ l. IsRun fed (w.inner_gone ++ l) e')
                (take-le (length produced) produced (omega arith)) run;
          put =
              append-nil (gone ++ drop drained (out ++ produced))
              ∙ grown_behind gone out produced drained w.drained_in
              ∙ ap (λ l. l ++ produced) (sym (append-nil (gone ++ drop drained out)) ∙ w.put)
              ∙ append_assoc header w.inner_gone produced;
        },
      )

  -- The inner encoder is finished, its output moved, and a trailer put out behind it.
  pub finish-IsWrapped :
      (trailer : List ℕ)
      → IsWrapped header fed gone e out drained true
      → ((finish e).0 ≡ ok tt)
        × ((e' : Encoder) × (advance (length (output (finish e).1)) (finish e).1 ≡ ok e'))
        × ((encoded : List ℕ) × IsStream fed encoded
            × (gone ++ drop drained ((out ++ output (finish e).1) ++ trailer)
                ≡ header ++ (encoded ++ trailer)))
  finish-IsWrapped trailer w =
      let produced = output (finish e).1 in
      let ended = finish-IsStream fed w.inner_gone e w.inner in
      (
        ended.0,
        advance-output_encoder (finish e).1,
        (
          w.inner_gone ++ produced,
          ended.1,
          ap (λ l. gone ++ drop drained l) (append_assoc out produced trailer)
              ∙ grown_behind gone out (produced ++ trailer) drained w.drained_in
              ∙ ap (λ l. l ++ (produced ++ trailer))
                  (sym (append-nil (gone ++ drop drained out)) ∙ w.put)
              ∙ append_assoc header w.inner_gone (produced ++ trailer)
              ∙ ap (λ l. header ++ l) (sym (append_assoc w.inner_gone produced trailer)),
        ),
      )
