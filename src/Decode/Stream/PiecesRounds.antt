-- ===== src/Decode/Stream/PiecesRounds.antt =====
-- Rounds of the loop of `drive` of src/decode.rs on a part of a stream of stored blocks.
use noflate.Base.{
  ℕ, suc, ◌+◌, ◌-◌, ◌≤◌, ◌<◌, ◌≡◌, refl, sym, ap, ◌∙◌, Bool, true, false, List, [], ◌++◌,
  append_assoc, append-nil, arith, length, length-drop, drop, drop-drop, drop-append_self,
  append_split,
}
use noflate.Error.{Result, ok}
use noflate.Decode.State.{DecodeState, Machine, finished, progress, need_more_bytes, done}
use noflate.Decode.Body.{step}
use noflate.Decode.Stream.{drive_loop, drive_next}
use noflate.Decode.Stream.StoredSteps.{machine_at}
use noflate.Decode.Stream.StoredPieces.{Expects}

-- The loop on `all`, with `future` to come and `rest` behind the stream: it has put out a part of
-- `bytes` and waits, or all of them and has ended.
pub data Ran (all future rest out bytes : List ℕ) (x : Result Bool × Machine) : Type 0 where
  paused :
      (i count : ℕ) (state : DecodeState) (put encoded' bytes' : List ℕ)
      → x ≡ (ok false, machine_at all i count state (out ++ put))
      → Expects state count encoded' bytes'
      → put ++ bytes' ≡ bytes
      → drop i all ++ future ≡ encoded' ++ rest
      → i ≤ length all
      → length all - i < length encoded'
      → Ran all future rest out bytes x
  ended :
      (i : ℕ)
      → x ≡ (ok true, machine_at all i 0 finished (out ++ bytes))
      → drop i all ++ future ≡ rest
      → i ≤ length all
      → Ran all future rest out bytes x

-- Rounds before, that put `b` out.
pub Ran-after :
    {all future rest out bytes' bytes : List ℕ} (b : List ℕ) {x y : Result Bool × Machine}
    → y ≡ x
    → b ++ bytes' ≡ bytes
    → Ran all future rest (out ++ b) bytes' x
    → Ran all future rest out bytes y
Ran-after {all} {future} {rest} {out} {bytes'} {bytes} b e joined
      (paused i count state put encoded' left x expects parts more inside short) =
    paused i count state (b ++ put) encoded' left
      (e ∙ x ∙ ap (λ l. (ok false, machine_at all i count state l)) (append_assoc out b put))
      expects (append_assoc b put left ∙ ap (λ l. b ++ l) parts ∙ joined) more inside short
Ran-after {all} {future} {rest} {out} {bytes'} {bytes} b e joined (ended i x more inside) =
    ended i
      (e
        ∙ x
        ∙ ap (λ l. (ok true, machine_at all i 0 finished l))
            (append_assoc out b bytes' ∙ ap (λ l. out ++ l) joined))
      more inside

module _ (drained : ℕ) where
  pub loop_progress :
      (fuel : ℕ) (s s' : Machine)
      → step drained s ≡ (ok progress, s')
      → drive_loop (suc fuel) drained s ≡ drive_loop fuel drained s'
  loop_progress fuel s s' e = unfold drive_loop drive_next in rw e refl

  pub loop_waits :
      (fuel : ℕ) (s s' : Machine)
      → step drained s ≡ (ok need_more_bytes, s')
      → drive_loop (suc fuel) drained s ≡ (ok false, s')
  loop_waits fuel s s' e = unfold drive_loop drive_next in rw e refl

  pub loop_done :
      (fuel : ℕ) (s s' : Machine)
      → step drained s ≡ (ok done, s')
      → drive_loop (suc fuel) drained s ≡ (ok true, s')
  loop_done fuel s s' e = unfold drive_loop drive_next in rw e refl

  -- No more is there: the decoder expects what it did.
  pub stays :
      (all future rest out encoded bytes : List ℕ) (i count : ℕ) (state : DecodeState)
      (x : Result Bool × Machine)
      → x ≡ (ok false, machine_at all i count state out)
      → Expects state count encoded bytes
      → drop i all ++ future ≡ encoded ++ rest
      → i ≤ length all
      → length all - i < length encoded
      → Ran all future rest out bytes x
  stays all future rest out encoded bytes i count state x e expects more inside short =
      paused i count state [] encoded bytes
        (e ∙ ap (λ l. (ok false, machine_at all i count state l)) (sym (append-nil out))) expects
        refl more inside short

  -- The rest of `all` behind some bytes that stand there.
  pub behind_of :
      (all future ys zs : List ℕ) (i : ℕ)
      → drop i all ++ future ≡ ys ++ zs
      → length ys ≤ length all - i
      → (t : List ℕ) × (drop i all ≡ ys ++ t) × (drop (i + length ys) all ++ future ≡ zs)
  behind_of all future ys zs i e h =
      let (t, here, more) =
        append_split (drop i all) future ys zs e (omega (arith, length-drop {0} i all)) in
      let after : drop (i + length ys) all ≡ t =
        sym (drop-drop (length ys) i all) ∙ ap (drop (length ys)) here ∙ drop-append_self ys t in
      (t, here, ap (λ l. l ++ future) after ∙ more)
