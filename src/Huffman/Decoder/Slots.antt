-- ===== src/Huffman/Decoder/Slots.antt =====
-- `HuffmanDecoder::from_code_lengths` of src/huffman.rs: what its inner loop leaves in the slots.
use native.Mathlib.Nat.{mod-eq_of_lt}
use native.Mathlib.Decide.{ℕ_discrete}
use noflate.Base.{
  ℕ, zero, suc, ◌+◌, ◌*◌, ◌^◌, ◌≤◌, ◌<◌, ◌≡◌, sym, ap, ◌∙◌, true, false, Option, none, some, List,
  arith, get_elem?, set, ◌==◌, if◌then◌else◌, u16, ◌<<<◌, bit_or, get_elem?-set_same,
  get_elem?-set_other, get_elem?_lt,
}
use noflate.Base.Bits.{or_shifted, or_comm, two_pow_le}
use noflate.Error.{Result, ok, err, panic, invalid_data, conflicting_codes}
use noflate.Huffman.Digits.{times}
use noflate.Huffman.Decoder.{vacant, fill_slots}

abbrev chosen : Option ℕ → Result (List ℕ) → Result (List ℕ)
chosen o more = elim o [
  | none ↦ panic
  | some slot ↦ if slot == vacant then more else err (invalid_data conflicting_codes)
]

chosen-ok :
    (o : Option ℕ) (more : Result (List ℕ)) (t : List ℕ)
    → chosen o more ≡ ok t
    → (o ≡ some vacant) × (more ≡ ok t)
chosen-ok none more t e = cc
chosen-ok (some s) more t e = elim (ℕ_discrete s vacant) [
  | yes empty ↦ (
    ap some empty,
    let same : (s == vacant) ≡ true = ground arith in
        sym (ap (λ b. if b then more else err (invalid_data conflicting_codes)) same) ∙ e,
  )
  | no taken ↦
      let other : (s == vacant) ≡ false = ground arith in
      absurd (
        failed t
          (sym (ap (λ b. if b then more else err (invalid_data conflicting_codes)) other) ∙ e))
]
  where
    failed : (t : List ℕ) → ¬ (err (invalid_data conflicting_codes) ≡ ok t)
    failed t e = cc

-- The index of a slot, when it is below 2 ^ 16.
pub slot_index :
    (padding width reversed : ℕ)
    → padding * 2 ^ width < 2 ^ 16
    → reversed < 2 ^ width
    → bit_or (u16 (u16 padding <<< width)) reversed ≡ reversed + padding * 2 ^ width
slot_index padding width reversed fits small =
    let one : padding ≤ padding * 2 ^ width =
      scaled padding (2 ^ width) (two_pow_le 0 width (omega arith)) in
    let cast : u16 padding ≡ padding = mod-eq_of_lt (omega arith) in
    rw (cast, mod-eq_of_lt fits, or_comm (padding * 2 ^ width) reversed)
      (or_shifted width reversed padding small)
  where
    scaled : (a b : ℕ) → 1 ≤ b → a ≤ a * b
    scaled a b h = grind arith

module _ (width reversed value : ℕ) (small : reversed < 2 ^ width) where
  -- A round of the loop: the slot was empty.
  pub fill_slots_round :
      (n padding : ℕ) (table t : List ℕ)
      → padding * 2 ^ width < 2 ^ 16
      → fill_slots (suc n) padding width reversed value table ≡ ok t
      → (get_elem? table (reversed + padding * 2 ^ width) ≡ some vacant)
        × (fill_slots n
              (padding + 1)
              width
              reversed
              value
              (set table (reversed + padding * 2 ^ width) value)
            ≡ ok t)
  unfolding fill_slots
  fill_slots_round n padding table t fits e =
      let i = slot_index padding width reversed fits small in
      let both = chosen-ok _ _ t e in
      (
        ap (get_elem? table) (sym i) ∙ both.0,
        ap (λ k. fill_slots n (padding + 1) width reversed value (set table k value)) (sym i)
            ∙ both.1,
      )

  -- A slot that was filled before keeps its value.
  pub fill_slots_keeps :
      (n padding : ℕ) (table t : List ℕ)
      → (padding + n) * 2 ^ width ≤ 2 ^ 15
      → fill_slots n padding width reversed value table ≡ ok t
      → (i x : ℕ) → get_elem? table i ≡ some x
      → ¬ (x ≡ vacant)
      → get_elem? t i ≡ some x
  fill_slots_keeps zero padding table t fits e i x there filled =
      unfold fill_slots in let same : table ≡ t = cc in ap (λ l. get_elem? l i) (sym same) ∙ there
  fill_slots_keeps (suc n) padding table t fits e i x there filled =
      let round =
        fill_slots_round n padding table t
          (omega (arith, times padding (padding + suc n) (2 ^ width) (omega arith))) e in
      let index = reversed + padding * 2 ^ width in
      let apart : ¬ (index ≡ i) =
        λ same. filled (some_inj (sym there ∙ ap (get_elem? table) (sym same) ∙ round.0)) in
      fill_slots_keeps n (padding + 1) (set table index value) t
        (omega (
          arith,
          ap (λ (k : ℕ). k * 2 ^ width) {x = padding + 1 + n} {y = padding + suc n} (omega arith),
        ))
        round.1 i x (get_elem?-set_other table index i value apart ∙ there) filled
    where
      some_inj : {a b : ℕ} → some a ≡ some b → a ≡ b
      some_inj e = cc

  -- Each slot of the loop holds the value.
  pub fill_slots_fills :
      ¬ (value ≡ vacant)
      → (n padding : ℕ) (table t : List ℕ) → (padding + n) * 2 ^ width ≤ 2 ^ 15
      → fill_slots n padding width reversed value table ≡ ok t
      → (k : ℕ) → padding ≤ k
      → k < padding + n
      → get_elem? t (reversed + k * 2 ^ width) ≡ some value
  fill_slots_fills filled zero padding table t fits e k low high = absurd (omega arith)
  fill_slots_fills filled (suc n) padding table t fits e k low high =
      let round =
        fill_slots_round n padding table t
          (omega (arith, times padding (padding + suc n) (2 ^ width) (omega arith))) e in
      let index = reversed + padding * 2 ^ width in
      let next : (padding + 1 + n) * 2 ^ width ≤ 2 ^ 15 = omega (
        arith,
        ap (λ (j : ℕ). j * 2 ^ width) {x = padding + 1 + n} {y = padding + suc n} (omega arith),
      ) in
      elim (ℕ_discrete k padding) [
        | yes same ↦
            fill_slots_keeps n (padding + 1) (set table index value) t next round.1
              (reversed + k * 2 ^ width) value
              (ap (λ (j : ℕ). get_elem? (set table index value) (reversed + j * 2 ^ width)) same
                ∙ get_elem?-set_same table index value (get_elem?_lt table index vacant round.0))
              filled
        | no other ↦
            fill_slots_fills filled n (padding + 1) (set table index value) t next round.1 k
              (omega arith) (omega arith)
      ]
