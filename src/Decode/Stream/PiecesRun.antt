-- ===== src/Decode/Stream/PiecesRun.antt =====
-- The loop of `drive` of src/decode.rs on a part of a stream of stored blocks: it stops at the end of
-- what is there, and expects the rest.
use noflate.Base.{
  ℕ, zero, suc, ◌+◌, ◌-◌, ◌*◌, ◌≤◌, ◌≡◌, ap, ◌∙◌, List, [], ◌∷◌, ◌++◌, arith, length, drop,
}
use noflate.Decode.State.{DecodeState}
use noflate.Decode.Stream.{drive_loop}
use noflate.Decode.Stream.StoredSteps.{machine_at}
use noflate.Decode.Stream.StoredPieces.{Expects, at_header, at_lengths, at_body}
use noflate.Decode.Stream.PiecesRounds.{Ran}
use noflate.Decode.Stream.PiecesStates.{extra, Runs, run_header, run_lengths, run_end, run_body}

module _ (drained : ℕ) (all future rest : List ℕ) where
  -- In any state that expects a part of the stream, fuel for twice the bytes there is enough.
  pub run : (fuel : ℕ) → Runs drained all future rest fuel
  run zero out encoded bytes i count state expects more inside enough = absurd (omega arith)
  run (suc fuel) out encoded bytes i count state (at_header state_is count_is stream) more inside
        enough =
      let small : extra state ≡ 0 = ap extra state_is in
      rw (state_is, count_is)
        (run_header drained all future rest fuel
          (λ o e b j c s x m h k. run fuel o e b j c s x m h k) out encoded bytes i stream more
          inside (omega (arith, small)))
  run (suc fuel) out encoded bytes i count state
        (at_lengths is_final b encoded' bytes' state_is count_is fits behind encoded_is joined) more
        inside enough =
      let small : extra state ≡ 0 = ap extra state_is in
      rw (state_is, count_is)
        (run_lengths drained all future rest fuel
          (λ o e b j c s x m h k. run fuel o e b j c s x m h k) out bytes i is_final b encoded'
          bytes' fits behind joined (more ∙ ap (λ l. l ++ rest) encoded_is) inside
          (omega (arith, small)))
  run (suc fuel) out encoded bytes i count state
        (at_body is_final [] encoded' bytes' state_is count_is behind encoded_is joined) more inside
        enough =
      let one : extra state ≡ 1 = ap extra state_is in
      rw (state_is, count_is, joined)
        (run_end drained all future rest fuel (λ o e b j c s x m h k. run fuel o e b j c s x m h k)
          out i is_final encoded' bytes' behind (more ∙ ap (λ l. l ++ rest) encoded_is) inside
          (omega (arith, one)))
  run (suc fuel) out encoded bytes i count state
        (at_body is_final (y ∷ b) encoded' bytes' state_is count_is behind encoded_is joined) more
        inside enough =
      let one : extra state ≡ 1 = ap extra state_is in
      rw (state_is, count_is)
        (run_body drained all future rest fuel (λ o e b j c s x m h k. run fuel o e b j c s x m h k)
          out bytes i is_final (y ∷ b) encoded' bytes' (omega arith) behind joined
          (more ∙ ap (λ l. l ++ rest) encoded_is) inside (omega (arith, one)))

  -- The same for a bound that does not look at the state.
  pub run_all :
      (fuel : ℕ) (out encoded bytes : List ℕ) (i count : ℕ) (state : DecodeState)
      → Expects state count encoded bytes
      → drop i all ++ future ≡ encoded ++ rest
      → i ≤ length all
      → 2 * (length all - i) + 2 ≤ fuel
      → Ran all future rest out bytes (drive_loop fuel drained (machine_at all i count state out))
  run_all fuel out encoded bytes i count state expects more inside enough =
      run fuel out encoded bytes i count state expects more inside
        (omega (arith, small state expects))
    where
      small :
          (state : DecodeState) {count : ℕ} {encoded bytes : List ℕ}
          → Expects state count encoded bytes
          → extra state ≤ 1
      small state (at_header state_is a b) = omega (arith, ap extra state_is)
      small state (at_lengths f a b c state_is g h i j k) = omega (arith, ap extra state_is)
      small state (at_body f a b c state_is g h i j) = omega (arith, ap extra state_is)
