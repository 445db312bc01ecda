-- ===== src/Encode/Dynamic/RunCodes.antt =====
-- The codes that src/encode.rs makes of a run of widths, read back.
use native.Mathlib.Decide.{dec_le}
use noflate.Base.{
  ℕ, zero, suc, ◌+◌, ◌-◌, ◌≤◌, ◌<◌, ◌≡◌, refl, sym, ap, ap₂, ◌∙◌, min, Bool-cases, inl, inr, List,
  [], ◌∷◌, ◌++◌, append_assoc, append-nil, arith, replicate, ◌==◌, if◌then◌else◌, u8, All, le→leb,
  lt→leb_false, ==_iff, some, length, length-append,
}
use noflate.Encode.Dynamic.{RunLength, zero_codes, repeat_codes, run_codes, all_codes}
use noflate.Encode.Dynamic.Expand.{
  last_or, and_on, expand_codes, two_parts, expand_codes-append, expand_codes-cons,
  expand_code_plain, expand_code_zeros, expand_code_many_zeros, expand_code_repeat,
  expand_codes-replicate,
}

zero_codes_many :
    (fuel count : ℕ)
    → 11 ≤ count
    → zero_codes (suc fuel) count
      ≡ (18, 7, u8 (min 138 count) - 11) ∷ zero_codes fuel (count - min 138 count)
unfolding zero_codes
zero_codes_many fuel count many = rw (le→leb 11 count many) refl

repeat_codes_many :
    (fuel width count : ℕ)
    → 3 ≤ count
    → repeat_codes (suc fuel) width count
      ≡ (16, 2, u8 (min 6 count) - 3) ∷ repeat_codes fuel width (count - min 6 count)
unfolding repeat_codes
repeat_codes_many fuel width count many = rw (le→leb 3 count many) refl

zero_codes_lem :
    (fuel count : ℕ) (all : List ℕ)
    → count < fuel
    → expand_codes (zero_codes fuel count) all ≡ some (all ++ replicate count 0)
zero_codes_lem zero count all enough = absurd (omega arith)
zero_codes_lem (suc fuel) count all enough = elim (dec_le 11 count) [
  | yes many ↦
      let amount = min 138 count in
      let extra = u8 amount - 11 in
      let back : extra + 11 ≡ amount = omega arith in
      ap (λ codes. expand_codes codes all) (zero_codes_many fuel count many)
      ∙ expand_codes-cons all 18 7 extra (zero_codes fuel (count - amount))
          (expand_code_many_zeros extra all (omega arith))
      ∙ ap (λ k. expand_codes (zero_codes fuel (count - amount)) (all ++ replicate k 0)) back
      ∙ (zero_codes_lem fuel (count - amount) (all ++ replicate amount 0) (omega arith)
          ∙ ap some (two_parts all amount (count - amount) count 0 (omega arith)))
  | no few ↦ elim (dec_le 3 count) [
    | yes some_zeros ↦
        let back : u8 count - 3 + 3 ≡ count = omega arith in
        unfold zero_codes in
        rw (lt→leb_false 11 count (omega arith), le→leb 3 count some_zeros)
          (expand_codes-cons all 17 3 (u8 count - 3) []
              (expand_code_zeros (u8 count - 3) all (omega arith))
            ∙ ap (λ k. some (all ++ replicate k 0)) back)
    | no less ↦
        unfold zero_codes in
        rw (lt→leb_false 11 count (omega arith), lt→leb_false 3 count (omega arith))
          (expand_codes-replicate count 0 all (omega arith))
  ]
]

last_or-append : (d x n : ℕ) (all : List ℕ) → last_or d (all ++ replicate (suc n) x) ≡ x
last_or-append d x zero [] = refl
last_or-append d x (suc n) [] = last_or-append x x n []
last_or-append d x n (y ∷ all) = last_or-append y x n all

repeat_codes_lem :
    (fuel width count : ℕ) (all : List ℕ)
    → width < 16
    → count < fuel
    → 0 < length all
    → last_or 0 all ≡ width
    → expand_codes (repeat_codes fuel width count) all ≡ some (all ++ replicate count width)
repeat_codes_lem zero width count all small enough some_widths last = absurd (omega arith)
repeat_codes_lem (suc fuel) width count all small enough some_widths last = elim (dec_le 3 count) [
  | yes many ↦
      let amount = min 6 count in
      let extra = u8 amount - 3 in
      let back : extra + 3 ≡ amount = omega arith in
      let pos : amount ≡ suc (amount - 1) = omega arith in
      let ends : last_or 0 (all ++ replicate amount width) ≡ width =
        ap (λ k. last_or 0 (all ++ replicate k width)) pos
        ∙ last_or-append 0 width (amount - 1) all in
      ap (λ codes. expand_codes codes all) (repeat_codes_many fuel width count many)
      ∙ expand_codes-cons all 16 2 extra (repeat_codes fuel width (count - amount))
          (expand_code_repeat extra all (omega arith) some_widths)
      ∙ ap₂ (λ k x. expand_codes (repeat_codes fuel width (count - amount)) (all ++ replicate k x))
          back last
      ∙ (repeat_codes_lem fuel width (count - amount) (all ++ replicate amount width) small
            (omega arith) (omega (arith, length-append all (replicate amount width))) ends
          ∙ ap some (two_parts all amount (count - amount) count width (omega arith)))
  | no few ↦
      unfold repeat_codes in
      rw (lt→leb_false 3 count (omega arith)) (expand_codes-replicate count width all small)
]

-- A run that is put out whole.
abbrev pub IsRun : RunLength → Type 0
IsRun run = (1 ≤ run.count) × (run.run_value < 16)

abbrev pub flatten : List RunLength → List ℕ
flatten [] = []
flatten (run ∷ rest) = replicate run.count run.run_value ++ flatten rest

run_codes_lem :
    (run : RunLength) (all : List ℕ)
    → IsRun run
    → expand_codes (run_codes run) all ≡ some (all ++ replicate run.count run.run_value)
unfolding run_codes
run_codes_lem run all (some_widths, small) = elim (Bool-cases (run.run_value == 0)) [
  | inl zeros ↦
      let e : 0 ≡ run.run_value = sym ((==_iff run.run_value 0).0 zeros) in
      (ap
        (λ b.
          expand_codes
            (if b
              then zero_codes (run.count + 1) run.count
              else (run.run_value, 0, 0) ∷ repeat_codes run.count run.run_value (run.count - 1))
            all)
        zeros)
      ∙ zero_codes_lem (run.count + 1) run.count all (omega arith)
      ∙ ap (λ x. some (all ++ replicate run.count x)) e
  | inr other ↦
      (ap
        (λ b.
          expand_codes
            (if b
              then zero_codes (run.count + 1) run.count
              else (run.run_value, 0, 0) ∷ repeat_codes run.count run.run_value (run.count - 1))
            all)
        other)
      ∙ expand_codes-cons all run.run_value 0 0
          (repeat_codes run.count run.run_value (run.count - 1))
          (expand_code_plain run.run_value all small)
      ∙ repeat_codes_lem run.count run.run_value (run.count - 1) (all ++ run.run_value ∷ []) small
          (omega arith) (omega (arith, length-append all (run.run_value ∷ [])))
          (last_or-append 0 run.run_value 0 all)
      ∙ ap some (two_parts all 1 (run.count - 1) run.count run.run_value (omega arith))
]

pub all_codes_lem :
    (rs : List RunLength) (all : List ℕ)
    → All IsRun rs
    → expand_codes (all_codes rs) all ≡ some (all ++ flatten rs)
all_codes_lem [] all ok = ap some (sym (append-nil all))
all_codes_lem (run ∷ rest) all (good, ok) =
    expand_codes-append (run_codes run) (all_codes rest) all
    ∙ ap (λ o. and_on o (expand_codes (all_codes rest))) (run_codes_lem run all good)
    ∙ all_codes_lem rest (all ++ replicate run.count run.run_value) ok
    ∙ ap some (append_assoc all (replicate run.count run.run_value) (flatten rest))
