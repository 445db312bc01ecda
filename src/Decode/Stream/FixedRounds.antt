-- ===== src/Decode/Stream/FixedRounds.antt =====
-- The loop of `drive` of src/decode.rs over a stream of blocks with fixed codes.
use mathlib.Core.Path.{subst}
use noflate.Base.{
  ℕ, zero, suc, ◌≤◌, ◌<◌, ◌≡◌, ◌⊎◌, inl, inr, refl, sym, ap, ◌∙◌, Bool, true, false, List, [], ◌++◌,
  append_assoc, append-nil, arith, length, length-append,
}
use noflate.Error.{Result, ok}
use noflate.Bit.Reads.{stream}
use noflate.Lz77.{Lz77Code}
use noflate.Lz77.Reach.{expand, expand-after, HasWindow}
use noflate.Encode.Symbols.{BlockDigits}
use noflate.Decode.State.{
  Machine, block_header, symbol_loop, finished, transient, progress, yield, done,
}
use noflate.Decode.Body.{step}
use noflate.Decode.Body.Tokens.{Holds}
use noflate.Decode.Body.Outcomes.{Ends, Yields, length-BlockDigits}
use noflate.Decode.Fixed.{FixedTables}
use noflate.Decode.Stream.{drive_loop, drive_next}
use noflate.Decode.Stream.FixedSteps.{step_symbols}
use noflate.Decode.Stream.FixedPlaces.{AfterBlock, AtHeader, InBlock, Ran, ended, yielded, entered}

module _ (f : FixedTables) (all behind gone target : List ℕ) (drained : ℕ) where
  round_on :
      (fuel : ℕ) (s s' : Machine)
      → step drained s ≡ (ok progress, s')
      → drive_loop (suc fuel) drained s ≡ drive_loop fuel drained s'
  unfolding drive_loop drive_next
  round_on fuel s s' e = rw e refl

  round_done :
      (fuel : ℕ) (s s' : Machine)
      → step drained s ≡ (ok done, s')
      → drive_loop (suc fuel) drained s ≡ (ok true, s')
  unfolding drive_loop drive_next
  round_done fuel s s' e = rw e refl

  round_yields :
      (fuel : ℕ) (s s' : Machine)
      → step drained s ≡ (ok yield, s')
      → drive_loop (suc fuel) drained s ≡ (ok false, s')
  unfolding drive_loop drive_next
  round_yields fuel s s' e = rw e refl

  goes_on :
      (s s' t : Machine) (put next : List ℕ)
      → s'.output ≡ s.output ++ put
      → t.output ≡ s'.output ++ next
      → t.output ≡ s.output ++ (put ++ next)
  goes_on s s' t put next e e' = e' ∙ ap (λ l. l ++ next) e ∙ append_assoc s.output put next

  Ran-after :
      (s s' : Machine) (put : List ℕ) {out : Result Bool × Machine}
      → s'.output ≡ s.output ++ put
      → length (stream s'.reader) < length (stream s.reader)
      → Ran f all behind gone target drained s' out
      → Ran f all behind gone target drained s out
  Ran-after s s' put grown fewer (ended t e state holds goal next out) =
      ended t e state holds goal (put ++ next) (goes_on s s' t put next grown out)
  Ran-after s s' put grown fewer (yielded t e block full next out less_in fewer_in) =
      yielded t e block full (put ++ next) (goes_on s s' t put next grown out) (omega arith)
        (λ h. omega arith)

  digits_left :
      (left : List Lz77Code) (digits : List ℕ)
      → BlockDigits f.lit f.dist left digits
      → 1 ≤ length digits
  digits_left left digits coded =
      omega (arith, length-BlockDigits f.coder left digits coded, f.coder.eob.used)

  -- A block that yields.
  leave_yielding :
      (fuel : ℕ) (s : Machine) (b : InBlock f all behind gone target s)
      → Yields f.coder all drained b.is_final b.tail b.left b.left_digits b.have
          (record s { state = transient })
          (step drained s)
      → Ran f all behind gone target drained s (drive_loop (suc fuel) drained s)
  leave_yielding fuel s b y =
      let s' = record s {
        reader = y.reader;
        state = symbol_loop b.is_final f.ld f.dd;
        output = y.output;
      } in
      let l = ap length y.holds.there ∙ length-append {0} y.left_digits b.tail in
      let l' = ap length b.holds.there ∙ length-append {0} b.left_digits b.tail in
      yielded s' (round_yields fuel s s' y.goes)
        (record {
          is_final = b.is_final;
          state = refl;
          left = y.left;
          left_digits = y.left_digits;
          coded = y.coded;
          limits = y.limits;
          have = y.have';
          reach = y.reach;
          kept = y.kept;
          counted = omega (arith, y.counted, b.counted);
          tail = b.tail;
          content = b.content;
          holds = y.holds;
          after =
              subst (λ l. AfterBlock f all behind b.is_final (gone ++ l) b.content b.tail)
                (sym y.same) b.after;
          goal = ap (λ l. (gone ++ l) ++ b.content) y.same ∙ b.goal;
        })
        y.full y.put y.grown (omega (arith, y.no_more))
        (λ more_out. omega (arith, y.fewer more_out))

  abbrev Runs : ℕ → Type 0
  Runs fuel =
      (s : Machine)
      → (AtHeader f all behind gone target s ⊎ InBlock f all behind gone target s)
      → length (stream s.reader) ≤ fuel
      → Ran f all behind gone target drained s (drive_loop fuel drained s)

  window_kept :
      (s : Machine) (b : InBlock f all behind gone target s)
      → HasWindow (length (gone ++ expand b.left s.output)) (expand b.left s.output)
  window_kept s b =
      let (put, e) = expand-after b.left s.output in
      omega (
        arith,
        b.kept,
        b.counted,
        length-append gone (expand b.left s.output),
        ap length e,
        length-append s.output put,
      )

  -- A block that ends.
  leave_ending :
      (fuel : ℕ) (again : Runs fuel) (s : Machine) (b : InBlock f all behind gone target s)
      (is_final : Bool)
      → length (stream s.reader) ≤ suc fuel
      → AfterBlock f all behind is_final (gone ++ expand b.left s.output) b.content b.tail
      → Ends f.coder all drained is_final b.tail b.left
          (record s { state = transient })
          (step drained s)
      → Ran f all behind gone target drained s (drive_loop (suc fuel) drained s)
  leave_ending fuel again s b true enough (nothing, rest) e =
      let s' = record s { reader = e.reader; state = finished; output = expand b.left s.output } in
      ended s' (round_done fuel s s' e.goes) refl (subst (λ l. Holds all 7 l e.reader) rest e.holds)
        (sym (append-nil _)
          ∙ ap (λ l. (gone ++ expand b.left s.output) ++ l) (sym nothing)
          ∙ b.goal)
        (expand-after b.left s.output).0 (expand-after b.left s.output).1
  leave_ending fuel again s b false enough blocks e =
      let s' = record s {
        reader = e.reader;
        state = block_header;
        output = expand b.left s.output;
      } in
      let l = ap length b.holds.there ∙ length-append {0} b.left_digits b.tail in
      let some_digits = digits_left b.left b.left_digits b.coded in
      let fewer : length (stream e.reader) < length (stream s.reader) =
        omega (arith, ap length e.holds.there) in
      subst (Ran f all behind gone target drained s) (sym (round_on fuel s s' e.goes)) (
        Ran-after s s' (expand-after b.left s.output).0 (expand-after b.left s.output).1 fewer (
          again s'
            (inl (record {
              state = refl;
              content = b.content;
              digits = b.tail;
              blocks = blocks;
              kept = window_kept s b;
              holds = e.holds;
              goal = b.goal;
            }))
            (omega arith)))

  -- The loop ends at the end of the stream, or yields within it.
  pub run : (fuel : ℕ) → Runs fuel
  run zero s (inl h) enough =
      let e = entered f all behind gone target drained s h.blocks h.kept h.state h.holds h.goal in
      absurd (omega (arith, e.fewer))
  run zero s (inr b) enough = absurd (
      omega (
        arith,
        ap length b.holds.there,
        length-append {0} b.left_digits b.tail,
        digits_left b.left b.left_digits b.coded,
      ))
  run (suc fuel) s (inl h) enough =
      let e = entered f all behind gone target drained s h.blocks h.kept h.state h.holds h.goal in
      subst (Ran f all behind gone target drained s) (sym (round_on fuel s e.after e.goes)) (
        Ran-after s e.after [] (e.output ∙ sym (append-nil s.output)) e.fewer
          (run fuel e.after (inr e.block) (omega (arith, e.fewer))))
  run (suc fuel) s (inr b) enough =
      elim (step_symbols f all drained b.is_final b.tail b.left b.left_digits b.have s b.state
        b.limits b.reach b.kept b.coded b.holds) [
          | inl e ↦ leave_ending fuel (run fuel) s b b.is_final enough b.after e
          | inr y ↦ leave_yielding fuel s b y
        ]
