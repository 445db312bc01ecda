-- ===== src/Huffman/Decoder/Canonical.antt =====
-- `HuffmanDecoder::from_code_lengths` of src/huffman.rs: the canonical codes fill the table from its
-- start on, in the order of the codes' digits.
use native.Mathlib.Nat.{
  div-lt_iff_lt-mul, mod-lt, div-eq_of_lt, mod-eq-sub-div-mul, div-mul-le_self,
}
use native.Mathlib.Decide.{dec_lt}
use noflate.Base.{
  ℕ, suc, ◌+◌, ◌-◌, ◌*◌, ◌/◌, ◌%◌, ◌^◌, ◌≤◌, ◌<◌, ◌≡◌, sym, ap, ◌∙◌, some, List, arith, get_elem?,
}
use noflate.Base.Bits.{two_pow_le, two_pow_add}
use noflate.Error.{ok}
use noflate.Huffman.Digits.{
  rev, rev_below, rev_add, rev_zero, rev-rev, rev_high, rev_prefix, rev_between, times,
}
use noflate.Huffman.Decoder.{vacant, fill_slots}
use noflate.Huffman.Decoder.Slots.{fill_slots_round, fill_slots_keeps, fill_slots_fills}

-- A filled slot, of a code of `top` bits at most: all the slots with those low digits hold it.
pub record Slot (table : List ℕ) (widest top i : ℕ) : Type 0 where
  pub entry : ℕ
  pub there : get_elem? table i ≡ some entry
  pub filled : ¬ (entry ≡ vacant)
  pub short : entry % 32 ≤ top
  pub whole :
      (j : ℕ)
      → j < 2 ^ widest
      → j % 2 ^ (entry % 32) ≡ i % 2 ^ (entry % 32)
      → get_elem? table j ≡ some entry

-- A symbol's code of `width` bits: its slots, and those that shorter looks at it go to.
pub record HasCode (table : List ℕ) (widest width code symbol : ℕ) : Type 0 where
  pub positive : 1 ≤ width
  pub inside : width ≤ widest
  pub fits : code < 2 ^ width
  pub own :
      (j : ℕ)
      → j < 2 ^ widest
      → j % 2 ^ width ≡ code
      → get_elem? table j ≡ some (width + symbol * 32)
  pub prefixes : (p : ℕ) → p ≤ width → Slot table widest width (code % 2 ^ p)

abbrev pub Kept : List ℕ → List ℕ → Type 0
Kept table t = (i x : ℕ) → get_elem? table i ≡ some x → ¬ (x ≡ vacant) → get_elem? t i ≡ some x

-- The slots whose digits, in the other order, are below `bound`.
abbrev pub Filled : List ℕ → ℕ → ℕ → ℕ → Type 0
Filled table widest top bound =
    (i : ℕ) → i < 2 ^ widest → rev widest i < bound → Slot table widest top i

module _ {table t : List ℕ} {widest : ℕ} (kept : Kept table t) where
  pub Slot-Kept : {top more i : ℕ} → top ≤ more → Slot table widest top i → Slot t widest more i
  Slot-Kept {i = i} h s = record {
    entry = s.entry;
    there = kept i s.entry s.there s.filled;
    filled = s.filled;
    short = omega (arith, s.short);
    whole = λ j inside same. kept j s.entry (s.whole j inside same) s.filled;
  }

  pub HasCode-Kept :
      {width code symbol : ℕ}
      → width ≤ 15
      → symbol < 2048
      → HasCode table widest width code symbol
      → HasCode t widest width code symbol
  HasCode-Kept {width} {code} {symbol} narrow low h = record {
    positive = h.positive;
    inside = h.inside;
    fits = h.fits;
    own = λ j inside same. kept j (width + symbol * 32) (h.own j inside same) (λ e. omega arith);
    prefixes = λ p le. Slot-Kept (omega arith) (h.prefixes p le);
  }

value_filled : (width symbol : ℕ) → width ≤ 15 → symbol < 2048 → ¬ (width + symbol * 32 ≡ vacant)
value_filled width symbol narrow low e = omega arith

all_bits : (width widest : ℕ) → width ≤ widest → 2 ^ (widest - width) * 2 ^ width ≡ 2 ^ widest
all_bits width widest inside =
    sym (two_pow_add (widest - width) width) ∙ ap (λ (k : ℕ). 2 ^ k) (omega arith)

room :
    (width widest : ℕ)
    → width ≤ widest
    → widest ≤ 15
    → (0 + 2 ^ (widest - width)) * 2 ^ width ≤ 2 ^ 15
room width widest inside narrow =
    let zero_left : 0 + 2 ^ (widest - width) ≡ 2 ^ (widest - width) = omega arith in
    rw (zero_left, all_bits width widest inside) (two_pow_le widest 15 narrow)

padding_inside :
    (width widest j : ℕ) → width ≤ widest → j < 2 ^ widest → j / 2 ^ width < 2 ^ (widest - width)
padding_inside width widest j inside h =
    let below : j < 2 ^ (widest - width) * 2 ^ width = rw (all_bits width widest inside) h in
    (div-lt_iff_lt-mul (omega (arith, two_pow_le 0 width (omega arith)))).1 below

-- The entry of a symbol, by the inner loop over the slots of its code.
module _ (table t : List ℕ) (widest width code symbol : ℕ) (narrow : widest ≤ 15)
    (inside : width ≤ widest) (positive : 1 ≤ width) (low : symbol < 2048)
    (before : Filled table widest width (code * 2 ^ (widest - width)))
    (done : fill_slots (2 ^ (widest - width)) 0 width (rev width code) (width + symbol * 32) table
      ≡ ok t) where
  pub entry-Kept : Kept table t
  entry-Kept i x at filled =
      fill_slots_keeps width (rev width code) (width + symbol * 32) (rev_below width code)
        (2 ^ (widest - width)) 0 table t (room width widest inside narrow) done i x at filled

  own_slots :
      (j : ℕ)
      → j < 2 ^ widest
      → j % 2 ^ width ≡ rev width code
      → get_elem? t j ≡ some (width + symbol * 32)
  own_slots j h e =
      let split : j ≡ rev width code + j / 2 ^ width * 2 ^ width =
        omega (arith, mod-eq-sub-div-mul j (2 ^ width), div-mul-le_self j (2 ^ width)) in
      ap (get_elem? t) split
      ∙ fill_slots_fills width (rev width code) (width + symbol * 32) (rev_below width code)
          (value_filled width symbol (omega arith) low) (2 ^ (widest - width)) 0 table t
          (room width widest inside narrow) done (j / 2 ^ width) (omega arith)
          (omega (arith, padding_inside width widest j inside h))

  own-Slot : (j : ℕ) → j < 2 ^ widest → j % 2 ^ width ≡ rev width code → Slot t widest width j
  own-Slot j h e =
      let low_digits : (width + symbol * 32) % 32 ≡ width = omega arith in
      record {
        entry = width + symbol * 32;
        there = own_slots j h e;
        filled = value_filled width symbol (omega arith) low;
        short = omega arith;
        whole = λ i inside same. own_slots i inside (
            ap (λ (k : ℕ). i % 2 ^ k) (sym low_digits)
            ∙ same
            ∙ ap (λ (k : ℕ). j % 2 ^ k) low_digits
            ∙ e);
      }

  pub entry-Filled : Filled t widest width ((code + 1) * 2 ^ (widest - width))
  entry-Filled i h below = elim (dec_lt (rev widest i) (code * 2 ^ (widest - width))) [
    | yes old ↦ Slot-Kept entry-Kept (omega arith) (before i h old)
    | no new ↦ own-Slot i h (rev_between widest width code i inside (omega arith) below)
  ]

  -- A code of `width` bits at most is a code of `width` bits, since the first slot is taken else.
  pub entry-below : code ≤ 2 ^ width → code < 2 ^ width
  entry-below h = elim (dec_lt code (2 ^ width)) [
    | yes less ↦ less
    | no full ↦
        let top : code ≡ 0 + 1 * 2 ^ width = omega arith in
        let nothing : rev width code ≡ 0 =
          ap (rev width) top ∙ rev_high width 1 0 ∙ rev_zero width in
        let one = two_pow_le 0 (widest - width) (omega arith) in
        let rounds : 2 ^ (widest - width) ≡ suc (2 ^ (widest - width) - 1) = omega arith in
        let first =
          fill_slots_round width (rev width code) (width + symbol * 32) (rev_below width code)
            (2 ^ (widest - width) - 1) 0 table t (omega arith)
            (ap (λ n. fill_slots n 0 width (rev width code) (width + symbol * 32) table)
                (sym rounds)
              ∙ done) in
        let start : rev width code + 0 * 2 ^ width ≡ 0 = omega arith in
        let taken = before 0 (omega (arith, two_pow_le 0 widest (omega arith))) (
          omega (
            arith,
            rev_zero widest,
            times 1 code (2 ^ (widest - width)) (omega (arith, two_pow_le 0 width (omega arith))),
          )) in
        absurd
          (taken.filled (some_inj (sym taken.there ∙ ap (get_elem? table) (sym start) ∙ first.0)))
  ]
    where
      some_inj : {a b : ℕ} → some a ≡ some b → a ≡ b
      some_inj e = cc

  own_position : code < 2 ^ width → rev widest (rev width code) ≡ code * 2 ^ (widest - width)
  own_position h =
      let e : widest ≡ width + (widest - width) = omega arith in
      let none_left : rev width code / 2 ^ width ≡ 0 = div-eq_of_lt (rev_below width code) in
      ap (λ k. rev k (rev width code)) e
      ∙ rev_add width (widest - width) (rev width code)
      ∙ rw (rev-rev width code h, none_left, rev_zero (widest - width)) (omega arith)

  pub entry-HasCode : code < 2 ^ width → HasCode t widest width (rev width code) symbol
  entry-HasCode h = record {
    positive = positive;
    inside = inside;
    fits = rev_below width code;
    own = own_slots;
    prefixes = λ p le.
        entry-Filled (rev width code % 2 ^ p)
          (omega (
            arith,
            mod-lt (rev width code) {m = 2 ^ p} (omega (arith, two_pow_le 0 p (omega arith))),
            two_pow_le p widest (omega arith),
          ))
          (omega (
            arith,
            rev_prefix widest p (rev width code) (omega arith),
            own_position h,
            two_pow_le 0 (widest - width) (omega arith),
          ));
  }
