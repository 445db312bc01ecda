-- ===== src/Decode/Stream/FixedTaken.antt =====
-- `advance` of `Decoder` of src/decode.rs within a stream of blocks with fixed codes.
use mathlib.Core.Path.{subst}
use noflate.Base.{
  ℕ, ◌+◌, ◌-◌, ◌≤◌, ◌≡◌, ◌⊎◌, inl, inr, refl, sym, ap, ◌∙◌, min, true, ◌||◌, List, ◌++◌,
  append_assoc, arith, length, length-drop, length-append, take, drop, take-append-drop, leb, ltb,
  ◌==◌, le→leb, Bool-cases,
}
use noflate.Error.{ok}
use noflate.Symbol.{window_size}
use noflate.Lz77.Reach.{expand, expand-behind, HasWindow}
use noflate.Buf
use noflate.Decode.State.{Machine}
use noflate.Encode.Fixed.{FixedStream}
use noflate.Decode.Fixed.{FixedTables}
use noflate.Decode.Stream.{Decoder, compact_threshold, output, advance, maybe_compact, machine}
use noflate.Decode.Stream.FixedPlaces.{AfterBlock, AtHeader, InBlock}
use noflate.Decode.Stream.FixedFeed.{IsDecoding, unread_bits}

module _ (f : FixedTables) (all behind gone target : List ℕ) (s : Machine) (k : ℕ)
    (outside : k ≤ length s.output - window_size) where
  -- What goes of the output is behind what has gone.
  put_again : (out : List ℕ) → (gone ++ take k out) ++ drop k out ≡ gone ++ out
  put_again out =
      append_assoc gone (take k out) (drop k out) ∙ ap (λ l. gone ++ l) (take-append-drop k out)

  -- Output before the window can go.
  AtHeader-drop :
      AtHeader f all behind gone target s
      → AtHeader f all behind
          (gone ++ take k s.output)
          target
          (record s { output = drop k s.output })
  AtHeader-drop h = record {
    state = h.state;
    content = h.content;
    digits = h.digits;
    blocks =
        subst (λ l. FixedStream f behind l h.content h.digits) (sym (put_again s.output)) h.blocks;
    kept = omega (
      arith,
      outside,
      h.kept,
      ap length (put_again s.output),
      length-append gone s.output,
      length-drop {0} k s.output,
    );
    holds = h.holds;
    goal = ap (λ l. l ++ h.content) (put_again s.output) ∙ h.goal;
  }

  InBlock-drop :
      InBlock f all behind gone target s
      → InBlock f all behind
          (gone ++ take k s.output)
          target
          (record s { output = drop k s.output })
  InBlock-drop b =
      let kept : HasWindow b.have (drop k s.output) =
        omega (arith, b.kept, length-drop {0} k s.output) in
      let put : (gone ++ take k s.output) ++ expand b.left (drop k s.output)
          ≡ gone ++ expand b.left s.output =
        append_assoc gone (take k s.output) (expand b.left (drop k s.output))
        ∙ ap (λ l. gone ++ l)
            (sym (
                expand-behind b.left b.have (take k s.output) (drop k s.output) b.limits b.reach
                  kept)
              ∙ ap (expand b.left) (take-append-drop k s.output)) in
      record {
        is_final = b.is_final;
        state = b.state;
        left = b.left;
        left_digits = b.left_digits;
        coded = b.coded;
        limits = b.limits;
        have = b.have;
        reach = b.reach;
        kept = kept;
        counted = omega (
          arith,
          b.counted,
          length-append gone s.output,
          ap length (put_again s.output),
          length-append (gone ++ take k s.output) (drop k s.output),
        );
        tail = b.tail;
        content = b.content;
        holds = b.holds;
        after =
            subst (λ l. AfterBlock f all behind b.is_final l b.content b.tail) (sym put) b.after;
        goal = ap (λ l. l ++ b.content) put ∙ b.goal;
      }

module _ (f : FixedTables) (behind gone target : List ℕ) where
  -- A decoder whose output has all been taken, and may have been dropped before the window.
  pub record IsTaken (d d' : Decoder) : Type 0 where
    pub gone' : List ℕ
    pub decoding : IsDecoding f behind gone' target d'
    pub same : gone' ++ d'.output ≡ gone ++ d.output
    pub drained : d'.drained ≡ length d'.output
    pub unread : unread_bits d' ≡ unread_bits d

  maybe_compact-IsTaken :
      (d : Decoder)
      → IsDecoding f behind gone target d
      → IsTaken d (maybe_compact (record d { drained = length d.output }))
  unfolding maybe_compact
  maybe_compact-IsTaken d p =
      let k = min (length d.output) (length d.output - window_size) in
      elim (Bool-cases (ltb (length d.output) compact_threshold || (k == 0))) [
        | inl small ↦ rw small (record {
          gone' = gone;
          decoding = record { running = p.running; input = p.input; place = p.place };
          same = refl;
          drained = refl;
          unread = refl;
        })
        | inr large ↦ rw large (record {
          gone' = gone ++ take k d.output;
          decoding = record { running = p.running; input = p.input; place = dropped p.place };
          same =
              append_assoc gone (take k d.output) (drop k d.output)
              ∙ ap (λ l. gone ++ l) (take-append-drop k d.output);
          drained = omega (arith, length-drop {0} k d.output);
          unread = refl;
        })
      ]
    where
      dropped :
          AtHeader f (Buf.get d.input) behind gone target (machine d)
            ⊎ InBlock f (Buf.get d.input) behind gone target (machine d)
          → AtHeader f
              (Buf.get d.input)
              behind
              (gone ++ take (min (length d.output) (length d.output - window_size)) d.output)
              target
              (record (machine d) {
                output = drop (min (length d.output) (length d.output - window_size)) d.output;
              })
            ⊎ InBlock f
                (Buf.get d.input)
                behind
                (gone ++ take (min (length d.output) (length d.output - window_size)) d.output)
                target
                (record (machine d) {
                  output = drop (min (length d.output) (length d.output - window_size)) d.output;
                })
      dropped (inl h) =
          inl (AtHeader-drop f (Buf.get d.input) behind gone target (machine d) _ (omega arith) h)
      dropped (inr b) =
          inr (InBlock-drop f (Buf.get d.input) behind gone target (machine d) _ (omega arith) b)

  -- Within a stream of blocks with fixed codes, taking all the output succeeds, and the decoder stays
  -- in its place: what is dropped of the output is before the window that the tokens of this block and
  -- of later ones can reach, and what is left of the stream still puts out the rest of the content. No
  -- more of the output than there is was taken before.
  pub advance-IsTaken :
      (d : Decoder)
      → IsDecoding f behind gone target d
      → d.drained ≤ length d.output
      → (d' : Decoder) × (advance (length (output d)) d ≡ ok d') × IsTaken d d'
  unfolding advance output
  advance-IsTaken d p inside =
      let fits : leb (length (drop d.drained d.output)) (length d.output - d.drained) ≡ true =
        le→leb _ _ (omega (arith, length-drop {0} d.drained d.output)) in
      let whole : d.drained + length (drop d.drained d.output) ≡ length d.output =
        omega (arith, length-drop {0} d.drained d.output) in
      (
        maybe_compact (record d { drained = length d.output }),
        rw (fits, whole) refl,
        maybe_compact-IsTaken d p,
      )
