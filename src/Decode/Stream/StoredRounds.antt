-- ===== src/Decode/Stream/StoredRounds.antt =====
-- The loop of `drive` of src/decode.rs over a run of stored blocks.
use mathlib.Core.Path.{subst}
use noflate.Base.{
  ℕ, suc, ◌+◌, ◌-◌, ◌≤◌, ◌<◌, ◌≡◌, refl, sym, ap, ap₂, ◌∙◌, Bool, true, false, List, [], ◌∷◌, ◌++◌,
  append_assoc, append-nil, arith, length, length-append, drop, drop-drop, drop-append_self,
  le_bytes_16, All, inl, inr, List-cases,
}
use noflate.Error.{ok}
use noflate.Encode.Stored.{block_bytes, blocks_bytes, concat, FitsBlock, IsStream}
use noflate.Decode.State.{Machine, block_header, stored_body, finished, progress}
use noflate.Decode.Body.{step}
use noflate.Decode.Stream.{drive_loop, drive_next}
use noflate.Decode.Stream.StoredSteps.{
  machine_at, step-header, step-lengths, step-body, step-end_of_body, step-end_of_stream,
}

module _ (drained : ℕ) where
  -- The loop goes from one machine to another in at most `n` rounds, whatever fuel is left then.
  pub record Reaches (n : ℕ) (s s' : Machine) : Type 0 where
    pub rounds : ℕ
    pub few : rounds ≤ n
    pub loops : (fuel : ℕ) → drive_loop (rounds + fuel) drained s ≡ drive_loop fuel drained s'

  pub Reaches-refl : (n : ℕ) (s : Machine) → Reaches n s s
  Reaches-refl n s = record {
    rounds = 0;
    few = omega arith;
    loops = λ fuel. ap (λ k. drive_loop k drained s) (omega arith);
  }

  pub Reaches-join :
      {n m : ℕ} {s t u : Machine} → Reaches n s t → Reaches m t u → Reaches (n + m) s u
  Reaches-join {n} {m} {s} {t} {u} p q = record {
    rounds = p.rounds + q.rounds;
    few = omega (arith, p.few, q.few);
    loops = λ fuel.
        let e : p.rounds + q.rounds + fuel ≡ p.rounds + (q.rounds + fuel) = omega arith in
        ap (λ k. drive_loop k drained s) e ∙ p.loops (q.rounds + fuel) ∙ q.loops fuel;
  }

  round : {s s' : Machine} → step drained s ≡ (ok progress, s') → Reaches 1 s s'
  round {s} {s'} e = record {
    rounds = 1;
    few = omega arith;
    loops = λ fuel.
        let one : 1 + fuel ≡ suc fuel = omega arith in
        ap (λ k. drive_loop k drained s) one ∙ one_step fuel;
  }
    where
      one_step : (fuel : ℕ) → drive_loop (suc fuel) drained s ≡ drive_loop fuel drained s'
      one_step fuel = unfold drive_loop drive_next in rw e refl

  -- The bytes of the bodies go to the output.
  body :
      (all out : List ℕ) (i : ℕ) (is_final : Bool) (b t : List ℕ)
      → drop i all ≡ b ++ t
      → Reaches 1
          (machine_at all i 0 (stored_body (length b) is_final) out)
          (machine_at all (i + length b) 0 (stored_body 0 is_final) (out ++ b))
  body all out i is_final b t here = elim (List-cases b) [
    | inl none ↦
        subst
          (λ b.
            Reaches 1 (machine_at all i 0 (stored_body (length b) is_final) out)
              (machine_at all (i + length b) 0 (stored_body 0 is_final) (out ++ b)))
          (sym none)
          (let e : i + 0 ≡ i = omega arith in
            rw (e, append-nil out)
              (Reaches-refl 1 (machine_at all i 0 (stored_body 0 is_final) out)))
    | inr (x, r, e) ↦
        round (
          step-body drained all out i is_final (length b) b t (omega (arith, ap length e)) refl
            here)
  ]

  -- A block up to the end of its body.
  up_to_end :
      (all out : List ℕ) (i : ℕ) (is_final : Bool) (b t : List ℕ)
      → FitsBlock b
      → drop i all ≡ block_bytes is_final b ++ t
      → Reaches 3 (machine_at all i 0 block_header out) (
          machine_at all
            (i + length (block_bytes is_final b))
            0
            (stored_body 0 is_final)
            (out ++ b))
  up_to_end all out i is_final b t fits here =
      let lengths = le_bytes_16 (length b) ++ (le_bytes_16 (65535 - length b) ++ (b ++ t)) in
      let after_header : drop (i + 1) all ≡ lengths = sym (drop-drop 1 i all) ∙ ap (drop 1) here in
      let after_lengths : drop (i + 1 + 4) all ≡ b ++ t =
        sym (drop-drop 4 (i + 1) all) ∙ ap (drop 4) after_header in
      let e : i + 1 + 4 + length b ≡ i + length (block_bytes is_final b) = omega arith in
      subst
        (λ k.
          Reaches 3 (machine_at all i 0 block_header out)
            (machine_at all k 0 (stored_body 0 is_final) (out ++ b)))
        e
        (Reaches-join
          (Reaches-join (round (step-header drained all out i is_final lengths here)) (
            round (
              step-lengths drained all out (i + 1) is_final (length b) (b ++ t) fits after_header)))
          (body all out (i + 1 + 4) is_final b t after_lengths))

  -- A run of blocks that are not the last.
  over_blocks :
      (all out : List ℕ) (i : ℕ) (bs : List (List ℕ)) (t : List ℕ)
      → All FitsBlock bs
      → drop i all ≡ blocks_bytes bs ++ t
      → Reaches
          (length (blocks_bytes bs))
          (machine_at all i 0 block_header out)
          (machine_at all (i + length (blocks_bytes bs)) 0 block_header (out ++ concat bs))
  over_blocks all out i [] t fit here =
      let e : i + 0 ≡ i = omega arith in
      rw (e, append-nil out) (Reaches-refl 0 (machine_at all i 0 block_header out))
  over_blocks all out i (b ∷ bs) t (fits, fit) here =
      let n = length (block_bytes false b) in
      let here' : drop i all ≡ block_bytes false b ++ (blocks_bytes bs ++ t) =
        here ∙ append_assoc (block_bytes false b) (blocks_bytes bs) t in
      let after : drop (i + n) all ≡ blocks_bytes bs ++ t =
        sym (drop-drop n i all)
        ∙ ap (drop n) here'
        ∙ drop-append_self (block_bytes false b) (blocks_bytes bs ++ t) in
      let first =
        Reaches-join (up_to_end all out i false b (blocks_bytes bs ++ t) fits here')
          (round (step-end_of_body drained all (out ++ b) (i + n))) in
      let joined = Reaches-join first (over_blocks all (out ++ b) (i + n) bs t fit after) in
      let len : length (blocks_bytes (b ∷ bs)) ≡ n + length (blocks_bytes bs) =
        length-append (block_bytes false b) (blocks_bytes bs) in
      let e : i + n + length (blocks_bytes bs) ≡ i + length (blocks_bytes (b ∷ bs)) =
        omega (arith, len) in
      rw (sym e, sym (append_assoc out b (concat bs)))
        (record {
          rounds = joined.rounds;
          few = omega (arith, joined.few, len);
          loops = joined.loops;
        })

  -- The loop ends behind a stream of stored blocks, when the fuel is more than the bytes.
  pub over_stream :
      (all out bytes encoded : List ℕ) (i fuel : ℕ) (t : List ℕ)
      → IsStream bytes encoded
      → drop i all ≡ encoded ++ t
      → length encoded < fuel
      → drive_loop fuel drained (machine_at all i 0 block_header out)
        ≡ (ok true, machine_at all (i + length encoded) 0 finished (out ++ bytes))
  over_stream all out bytes encoded i fuel t p here enough =
      let head = blocks_bytes p.blocks.blocks in
      let n = length head in
      let last = block_bytes true p.last in
      let whole : encoded ≡ head ++ last = p.encoded_as ∙ ap (λ l. l ++ last) p.blocks.encoded_as in
      let here' : drop i all ≡ head ++ (last ++ t) =
        here ∙ ap (λ l. l ++ t) whole ∙ append_assoc head last t in
      let after : drop (i + n) all ≡ last ++ t =
        sym (drop-drop n i all) ∙ ap (drop n) here' ∙ drop-append_self head (last ++ t) in
      let before = over_blocks all out i p.blocks.blocks (last ++ t) p.blocks.fit here' in
      let final =
        up_to_end all (out ++ concat p.blocks.blocks) (i + n) true p.last t p.last_fits after in
      let run = Reaches-join before final in
      let len : length encoded ≡ n + length last = ap length whole ∙ length-append head last in
      let stop : i + n + length last ≡ i + length encoded = omega (arith, len) in
      let all_out : (out ++ concat p.blocks.blocks) ++ p.last ≡ out ++ bytes =
        append_assoc out (concat p.blocks.blocks) p.last
        ∙ ap (λ l. out ++ l) (ap (λ l. l ++ p.last) p.blocks.joined ∙ p.joined) in
      let split : fuel ≡ run.rounds + suc (fuel - run.rounds - 1) = omega (arith, run.few, len) in
      ap (λ k. drive_loop k drained (machine_at all i 0 block_header out)) split
      ∙ run.loops (suc (fuel - run.rounds - 1))
      ∙ end_of_stream all (out ++ concat p.blocks.blocks ++ p.last) (i + n + length last)
          (fuel - run.rounds - 1)
      ∙ ap₂ (λ k l. (ok true, machine_at all k 0 finished l)) stop all_out
    where
      end_of_stream :
          (all out : List ℕ) (i fuel : ℕ)
          → drive_loop (suc fuel) drained (machine_at all i 0 (stored_body 0 true) out)
            ≡ (ok true, machine_at all i 0 finished out)
      end_of_stream all out i fuel =
          unfold drive_loop drive_next in rw (step-end_of_stream drained all out i) refl
