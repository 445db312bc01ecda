-- ===== src/Encode/Dynamic/RunLengths.antt =====
-- The runs of `build_bitwidth_codes` of src/encode.rs, and the codes of them taken together.
use mathlib.Core.List.{reverse-cons}
use mathlib.Core.Path.{subst}
use noflate.Base.{
  ℕ, ◌+◌, ◌<◌, ◌≡◌, refl, sym, ap, ◌∙◌, Bool-cases, inl, inr, List, [], ◌∷◌, ◌++◌, append_assoc,
  append-nil, reverse, arith, replicate, ◌==◌, if◌then◌else◌, All, All-append, ==_iff, some,
}
use noflate.Huffman.Encoder.{HuffmanEncoder}
use noflate.Encode.Dynamic.{RunLength, runs, widths_from, build_bitwidth_codes}
use noflate.Encode.Dynamic.Expand.{expand_codes, two_parts}
use noflate.Encode.Dynamic.RunCodes.{IsRun, flatten, all_codes_lem}

flatten-append : (xs ys : List RunLength) → flatten (xs ++ ys) ≡ flatten xs ++ flatten ys
flatten-append [] ys = refl
flatten-append (run ∷ xs) ys =
    ap (λ l. replicate run.count run.run_value ++ l) (flatten-append xs ys)
    ∙ sym (append_assoc (replicate run.count run.run_value) (flatten xs) (flatten ys))

flatten-reverse :
    (run : RunLength) (acc : List RunLength)
    → flatten (reverse (run ∷ acc)) ≡ flatten (reverse acc) ++ replicate run.count run.run_value
flatten-reverse run acc =
    ap flatten (reverse-cons run acc)
    ∙ flatten-append (reverse acc) (run ∷ [])
    ∙ ap (λ l. flatten (reverse acc) ++ l) (append-nil (replicate run.count run.run_value))

All-reverse : (acc : List RunLength) → All IsRun acc → All IsRun (reverse acc)
All-reverse [] ok = tt
All-reverse (run ∷ acc) (good, ok) =
    subst (All IsRun) (sym (reverse-cons run acc))
      (All-append IsRun (reverse acc) (run ∷ []) (All-reverse acc ok) (good, tt))

-- The runs, the last one first, that the loop has made of `widths`.
abbrev Makes : List ℕ → List RunLength → Type 0
Makes widths acc = (flatten (reverse acc) ≡ widths) × All IsRun acc

-- A round of the loop.
abbrev push : ℕ → List RunLength → List RunLength
push width [] = record { run_value = width; count = 1 } ∷ []
push width (run ∷ acc) =
    if run.run_value == width
    then record run { count = run.count + 1 } ∷ acc
    else record { run_value = width; count = 1 } ∷ (run ∷ acc)

new_run :
    (width : ℕ) (widths : List ℕ) (acc : List RunLength)
    → width < 16
    → Makes widths acc
    → Makes (widths ++ width ∷ []) (record { run_value = width; count = 1 } ∷ acc)
new_run width widths acc small (made, ok) = (
  flatten-reverse (record { run_value = width; count = 1 }) acc ∙ ap (λ l. l ++ width ∷ []) made,
  ((omega arith, small), ok),
)

push-Makes :
    (width : ℕ) (widths : List ℕ) (acc : List RunLength)
    → width < 16
    → Makes widths acc
    → Makes (widths ++ width ∷ []) (push width acc)
push-Makes width widths [] small made = new_run width widths [] small made
push-Makes width widths (run ∷ acc) small (made, (good, ok)) =
    elim (Bool-cases (run.run_value == width)) [
      | inr other ↦ rw other (new_run width widths (run ∷ acc) small (made, (good, ok)))
      | inl same ↦
          let e : run.run_value ≡ width = (==_iff run.run_value width).0 same in
          let longer = record run { count = run.count + 1 } in
          let grown : flatten (reverse (longer ∷ acc)) ≡ widths ++ width ∷ [] =
            flatten-reverse longer acc
            ∙ sym (two_parts (flatten (reverse acc)) run.count 1 (run.count + 1) run.run_value refl)
            ∙ ap (λ l. l ++ run.run_value ∷ []) (sym (flatten-reverse run acc) ∙ made)
            ∙ ap (λ x. widths ++ x ∷ []) e in
          rw same (grown, ((omega (arith, good.0), good.1), ok))
    ]

abbrev pub IsWidth : ℕ → Type 0
IsWidth width = width < 16

runs-Makes :
    (ws widths : List ℕ) (acc : List RunLength)
    → All IsWidth ws
    → Makes widths acc
    → Makes (widths ++ ws) (runs ws acc)
unfolding runs
runs-Makes [] widths acc small (made, ok) = (made ∙ sym (append-nil widths), ok)
runs-Makes (w ∷ ws) widths [] (h, small) made =
    subst (λ l. Makes l (runs ws (push w []))) (append_assoc widths (w ∷ []) ws)
      (runs-Makes ws (widths ++ w ∷ []) (push w []) small (push-Makes w widths [] h made))
runs-Makes (w ∷ ws) widths (run ∷ acc) (h, small) made =
    subst (λ l. Makes l (runs ws (push w (run ∷ acc)))) (append_assoc widths (w ∷ []) ws)
      (runs-Makes ws (widths ++ w ∷ []) (push w (run ∷ acc)) small
        (push-Makes w widths (run ∷ acc) h made))

-- Where the widths of two encoders are at most 15, the run-length codes made of them are read back to
-- just these widths by the rules of the format: each code has the extra bits that follow it there, its
-- number fits them, and no repeat stands without a width before it.
pub expand_codes-build_bitwidth_codes :
    (lit dist : HuffmanEncoder) (n m : ℕ)
    → All IsWidth (widths_from lit 0 n)
    → All IsWidth (widths_from dist 0 m)
    → expand_codes (build_bitwidth_codes lit n dist m) []
      ≡ some (widths_from lit 0 n ++ widths_from dist 0 m)
unfolding build_bitwidth_codes
expand_codes-build_bitwidth_codes lit dist n m small small' =
    let ws = widths_from lit 0 n ++ widths_from dist 0 m in
    let made =
      runs-Makes ws [] []
        (All-append IsWidth (widths_from lit 0 n) (widths_from dist 0 m) small small') (refl, tt) in
    all_codes_lem (reverse (runs ws [])) [] (All-reverse (runs ws []) made.1) ∙ ap some made.0
