-- ===== src/Encode/Stream/Runs.antt =====
-- The loop of `feed` of `Encoder` of src/encode.rs over the blocks of its input, whatever the blocks.
use native.Mathlib.Decide.{dec_le}
use noflate.Base.{
  ℕ, zero, suc, ◌≤◌, ◌<◌, ◌≡◌, refl, ap, false, Option, none, some, List, ◌++◌, arith, length,
  length-drop, take, drop, take-append-drop, le→leb, lt→leb_false,
}
use noflate.Error.{ok}
use noflate.Encode.Stream.{Encoder, emit_block_chunk, emit_full_blocks, split_input}

-- The limit on the input of a block, if there is one, is positive.
abbrev pub HasLimit : Option ℕ → Type 0
HasLimit none = Unit
HasLimit (some limit) = 0 < limit

-- `Run fed gone e`: the encoder `e` once `fed` has been fed and `gone` taken. A part of the input is
-- put out as a block that is not the last.
abbrev pub Emitting : (List ℕ → List ℕ → Encoder → Type 0) → Type 0
Emitting Run =
    (chunk rest fed gone : List ℕ) (e : Encoder)
    → Run fed gone e
    → chunk ++ rest ≡ e.input
    → (e' : Encoder) × (emit_block_chunk chunk false (record e { input = rest }) ≡ (ok tt, e'))
      × Run fed gone e'
      × (e'.input ≡ rest)

module _ (Run : List ℕ → List ℕ → Encoder → Type 0) (emit : Emitting Run) where
  pub emit_full_blocks-Run :
      (fuel limit : ℕ) (fed gone : List ℕ) (e : Encoder)
      → 0 < limit
      → length e.input ≤ fuel
      → Run fed gone e
      → ((emit_full_blocks fuel limit e).0 ≡ ok tt)
        × Run fed gone (emit_full_blocks fuel limit e).1
        × (length (emit_full_blocks fuel limit e).1.input < limit)
  unfolding emit_full_blocks
  emit_full_blocks-Run zero limit fed gone e pos enough r =
      rw (lt→leb_false limit (length e.input) (omega arith)) (refl, r, omega arith)
  emit_full_blocks-Run (suc fuel) limit fed gone e pos enough r =
      elim (dec_le limit (length e.input)) [
        | no less ↦ rw (lt→leb_false limit (length e.input) (omega arith)) (refl, r, omega arith)
        | yes full ↦
            let one =
              emit (take limit e.input) (drop limit e.input) fed gone e r
                (take-append-drop limit e.input) in
            let rest : length one.0.input ≤ fuel =
              omega (arith, ap length one.3, length-drop {0} limit e.input) in
            rw (le→leb limit (length e.input) full, one.1)
              (emit_full_blocks-Run fuel limit fed gone one.0 pos rest one.2)
      ]

  pub split_input-Run :
      (limit : Option ℕ) (fed gone : List ℕ) (e : Encoder)
      → HasLimit limit
      → Run fed gone e
      → ((split_input limit e).0 ≡ ok tt) × Run fed gone (split_input limit e).1
  unfolding split_input
  split_input-Run none fed gone e pos r = (refl, r)
  split_input-Run (some limit) fed gone e pos r =
      let all = emit_full_blocks-Run (length e.input) limit fed gone e pos (omega arith) r in
      (all.0, all.1)
