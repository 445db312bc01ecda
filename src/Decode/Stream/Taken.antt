-- ===== src/Decode/Stream/Taken.antt =====
-- `advance` of `Decoder` of src/decode.rs by all the output.
use noflate.Base.{
  ◌+◌, ◌-◌, ◌≡◌, refl, true, ◌||◌, arith, length, length-drop, drop, leb, ltb, le→leb, ◌==◌, min,
  Bool-cases, inl, inr,
}
use noflate.Error.{ok}
use noflate.Symbol.{window_size}
use noflate.Decode.Stream.{
  Decoder, compact_threshold, output, advance, maybe_compact, is_finished, remaining_input,
}

compacted :
    (d : Decoder)
    → (is_finished (maybe_compact d) ≡ is_finished d)
      × (remaining_input (maybe_compact d) ≡ remaining_input d)
unfolding maybe_compact is_finished remaining_input
compacted d =
    elim (Bool-cases (
      ltb (length d.output) compact_threshold
      || (min d.drained (length d.output - window_size) == 0))) [
        | inl small ↦ rw small (refl, refl)
        | inr large ↦ rw large (refl, refl)
      ]

-- Taking all the output succeeds, and changes neither what is unread nor whether the stream has
-- ended.
pub advance-output :
    (d : Decoder)
    → (d' : Decoder) × (advance (length (output d)) d ≡ ok d')
      × (is_finished d' ≡ is_finished d)
      × (remaining_input d' ≡ remaining_input d)
unfolding advance output is_finished remaining_input
advance-output d =
    let fits : leb (length (drop d.drained d.output)) (length d.output - d.drained) ≡ true =
      le→leb _ _ (omega (arith, length-drop {0} d.drained d.output)) in
    let moved = record d { drained = d.drained + length (drop d.drained d.output) } in
    let kept = compacted moved in (maybe_compact moved, rw fits refl, kept.0, kept.1)
