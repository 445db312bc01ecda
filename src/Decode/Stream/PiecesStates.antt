-- ===== src/Decode/Stream/PiecesStates.antt =====
-- The loop of `drive` of src/decode.rs on a part of a stream of stored blocks, by the state it is in.
use native.Mathlib.Decide.{dec_le}
use mathlib.Core.Path.{subst}
use noflate.Base.{
  ℕ, suc, ◌+◌, ◌-◌, ◌*◌, ◌≤◌, ◌<◌, ◌≡◌, refl, sym, ap, ◌∙◌, min, Bool, true, false, List, [], ◌∷◌,
  ◌++◌, append_assoc, append-nil, arith, length, length-append, length-drop, length-take, take,
  drop, take-append-drop, le_bytes_16,
}
use noflate.Error.{ok}
use noflate.Encode.Stored.{IsStream, FitsBlock}
use noflate.Decode.State.{DecodeState, block_header, stored_align_and_len, stored_body, finished}
use noflate.Decode.Stream.{drive_loop}
use noflate.Decode.Stream.StoredSteps.{
  machine_at, header_byte, step-header, step-lengths, step-end_of_body, step-end_of_stream,
}
use noflate.Decode.Stream.StoredWaits.{wait-header, wait-lengths, wait-body, step-part}
use noflate.Decode.Stream.StoredPieces.{
  Behind, Expects, at_header, at_lengths, at_body, IsStream-First,
}
use noflate.Decode.Stream.PiecesRounds.{
  Ran, ended, Ran-after, loop_progress, loop_waits, loop_done, stays, behind_of,
}

-- The last round of a body takes no byte.
abbrev pub extra : DecodeState → ℕ
extra block_header = 0
extra (stored_align_and_len is_final) = 0
extra other = 1

module _ (drained : ℕ) (all future rest : List ℕ) where
  -- What is to be shown for an amount of fuel.
  abbrev pub Runs : ℕ → Type 0
  Runs fuel =
      (out encoded bytes : List ℕ) (i count : ℕ) (state : DecodeState)
      → Expects state count encoded bytes
      → drop i all ++ future ≡ encoded ++ rest
      → i ≤ length all
      → 2 * (length all - i) + suc (extra state) ≤ fuel
      → Ran all future rest out bytes (drive_loop fuel drained (machine_at all i count state out))

  pub run_header :
      (fuel : ℕ) (again : Runs fuel) (out encoded bytes : List ℕ) (i : ℕ)
      → IsStream bytes encoded
      → drop i all ++ future ≡ encoded ++ rest
      → i ≤ length all
      → 2 * (length all - i) ≤ fuel
      → Ran all future rest out bytes
          (drive_loop (suc fuel) drained (machine_at all i 0 block_header out))
  run_header fuel again out encoded bytes i stream more inside enough =
      elim (dec_le (length all) i) [
        | yes none ↦
            let f = IsStream-First bytes encoded stream in
            let size : 0 < length encoded = omega (arith, ap length f.encoded_as) in
            stays drained all future rest out encoded bytes i 0 block_header _
              (loop_waits drained fuel _ _ (wait-header drained all out i none))
              (at_header refl refl stream) more inside (omega arith)
        | no some_bytes ↦
            let f = IsStream-First bytes encoded stream in
            let lengths =
              le_bytes_16 (length f.b)
              ++ (le_bytes_16 (65535 - length f.b) ++ (f.b ++ f.encoded')) in
            let (t, here, more') =
              behind_of drained all future (header_byte f.is_final ∷ []) (lengths ++ rest) i
                (more ∙ ap (λ l. l ++ rest) f.encoded_as) (omega arith) in
            Ran-after []
              (loop_progress drained fuel _ _ (step-header drained all out i f.is_final t here))
              refl
              (subst
                (λ l. Ran all future rest l bytes (
                  drive_loop fuel drained
                    (machine_at all (i + 1) 5 (stored_align_and_len f.is_final) out)))
                (sym (append-nil out))
                (again out lengths bytes (i + 1) 5 (stored_align_and_len f.is_final)
                  (at_lengths f.is_final f.b f.encoded' f.bytes' refl refl f.fits f.behind refl
                    f.joined)
                  more' (omega arith) (omega arith)))
      ]

  pub run_lengths :
      (fuel : ℕ) (again : Runs fuel) (out bytes : List ℕ) (i : ℕ) (is_final : Bool)
      (b encoded' bytes' : List ℕ)
      → FitsBlock b
      → Behind is_final encoded' bytes'
      → bytes ≡ b ++ bytes'
      → drop i all ++ future
        ≡ (le_bytes_16 (length b) ++ (le_bytes_16 (65535 - length b) ++ (b ++ encoded'))) ++ rest
      → i ≤ length all
      → 2 * (length all - i) ≤ fuel
      → Ran all future rest out bytes
          (drive_loop (suc fuel) drained (machine_at all i 5 (stored_align_and_len is_final) out))
  run_lengths fuel again out bytes i is_final b encoded' bytes' fits behind joined more inside
        enough =
      let lengths = le_bytes_16 (length b) ++ le_bytes_16 (65535 - length b) in
      elim (dec_le (i + 4) (length all)) [
        | no few ↦
            stays drained all future rest out (lengths ++ (b ++ encoded')) bytes i 5
              (stored_align_and_len is_final) _
              (loop_waits drained fuel _ _ (wait-lengths drained all out i is_final (omega arith)))
              (at_lengths is_final b encoded' bytes' refl refl fits behind refl joined) more inside
              (omega arith)
        | yes there ↦
            let (t, here, more') =
              behind_of drained all future lengths ((b ++ encoded') ++ rest) i more (omega arith) in
            Ran-after []
              (loop_progress drained fuel _ _
                (step-lengths drained all out i is_final (length b) t fits here))
              refl
              (subst
                (λ l. Ran all future rest l bytes (
                  drive_loop fuel drained
                    (machine_at all (i + 4) 0 (stored_body (length b) is_final) out)))
                (sym (append-nil out))
                (again out (b ++ encoded') bytes (i + 4) 0 (stored_body (length b) is_final)
                  (at_body is_final b encoded' bytes' refl refl behind refl joined) more'
                  (omega arith) (omega arith)))
      ]

  -- The end of a body.
  pub run_end :
      (fuel : ℕ) (again : Runs fuel) (out : List ℕ) (i : ℕ) (is_final : Bool)
      (encoded' bytes' : List ℕ)
      → Behind is_final encoded' bytes'
      → drop i all ++ future ≡ encoded' ++ rest
      → i ≤ length all
      → 2 * (length all - i) + 1 ≤ fuel
      → Ran all future rest out bytes'
          (drive_loop (suc fuel) drained (machine_at all i 0 (stored_body 0 is_final) out))
  run_end fuel again out i true encoded' bytes' (no_more, nothing) more inside enough =
      ended i
        (loop_done drained fuel _ _ (step-end_of_stream drained all out i)
          ∙ ap (λ l. (ok true, machine_at all i 0 finished l))
              (sym (append-nil out) ∙ ap (λ l. out ++ l) (sym nothing)))
        (more ∙ ap (λ l. l ++ rest) no_more) inside
  run_end fuel again out i false encoded' bytes' stream more inside enough =
      Ran-after [] (loop_progress drained fuel _ _ (step-end_of_body drained all out i)) refl (
        subst
          (λ l.
            Ran all future rest l bytes'
              (drive_loop fuel drained (machine_at all i 0 block_header out)))
          (sym (append-nil out))
          (again out encoded' bytes' i 0 block_header (at_header refl refl stream) more inside
            enough))

  -- The bytes of a body.
  pub run_body :
      (fuel : ℕ) (again : Runs fuel) (out bytes : List ℕ) (i : ℕ) (is_final : Bool)
      (b encoded' bytes' : List ℕ)
      → 0 < length b
      → Behind is_final encoded' bytes'
      → bytes ≡ b ++ bytes'
      → drop i all ++ future ≡ (b ++ encoded') ++ rest
      → i ≤ length all
      → 2 * (length all - i) + 1 ≤ fuel
      → Ran all future rest out bytes
          (drive_loop (suc fuel) drained (machine_at all i 0 (stored_body (length b) is_final) out))
  run_body fuel again out bytes i is_final b encoded' bytes' pos behind joined more inside enough =
      elim (dec_le (length all) i) [
        | yes none ↦
            stays drained all future rest out (b ++ encoded') bytes i 0
              (stored_body (length b) is_final) _
              (loop_waits drained fuel _ _
                (wait-body drained all out i is_final (length b) pos none))
              (at_body is_final b encoded' bytes' refl refl behind refl joined) more inside
              (omega (arith, length-append b encoded'))
        | no some_bytes ↦
            let m = min (length all - i) (length b) in
            let part = take m b in
            let left = drop m b in
            let size : length part ≡ m = omega (arith, length-take {0} m b) in
            let whole : b ≡ part ++ left = sym (take-append-drop m b) in
            let split : (b ++ encoded') ++ rest ≡ part ++ ((left ++ encoded') ++ rest) =
              ap (λ l. (l ++ encoded') ++ rest) whole
              ∙ ap (λ l. l ++ rest) (append_assoc part left encoded')
              ∙ append_assoc part (left ++ encoded') rest in
            let (t, here, more') =
              behind_of drained all future part ((left ++ encoded') ++ rest) i (more ∙ split)
                (omega (arith, size)) in
            let next =
              again (out ++ part) (left ++ encoded') (left ++ bytes') (i + m) 0
                (stored_body (length b - m) is_final)
                (at_body is_final left encoded' bytes'
                  (ap (λ k. stored_body k is_final) (sym (length-drop m b))) refl behind refl refl)
                (ap (λ k. drop (i + k) all ++ future) (sym size) ∙ more') (omega arith)
                (omega arith) in
            Ran-after part
              (loop_progress drained fuel _ _ (
                step-part drained all out i is_final (length b) m part t (omega arith) (omega arith)
                  size refl here))
              (sym (append_assoc part left bytes') ∙ ap (λ l. l ++ bytes') (sym whole) ∙ sym joined)
              next
      ]
