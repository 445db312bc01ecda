-- ===== src/Huffman/Sorted.antt =====
-- The symbols that src/huffman.rs gives codes to, sorted by their widths.
use native.Mathlib.Nat.{mod-eq_of_lt}
use native.Mathlib.Decide.{dec_le, dec_lt}
use noflate.Base.{
  ℕ, ◌+◌, ◌≤◌, ◌<◌, ◌≡◌, List, [], ◌∷◌, length, All, arith, le→leb, lt→leb_false, lt→ltb,
  le→ltb_false, u16,
}
use noflate.Huffman.Codes.{insert_by_key, sort_by_key, used_symbols, width_of}
use noflate.Huffman.Decoder.{maximum}

-- A symbol with a width that has a code.
pub record IsEntry (widest : ℕ) (e : ℕ × ℕ) : Type 0 where
  pub positive : 1 ≤ e.1
  pub inside : e.1 ≤ widest
  pub low : e.0 < 2048

-- Entries whose widths rise, from `from` on.
abbrev pub Ascending : ℕ → ℕ → List (ℕ × ℕ) → Type 0
Ascending widest from [] = Unit
Ascending widest from (e ∷ es) = IsEntry widest e × (from ≤ e.1) × Ascending widest e.1 es

insert_by_key-Ascending :
    (widest from : ℕ) (x : ℕ × ℕ) (es : List (ℕ × ℕ))
    → IsEntry widest x
    → from ≤ x.1
    → Ascending widest from es
    → Ascending widest from (insert_by_key width_of x es)
unfolding insert_by_key
insert_by_key-Ascending widest from x [] i h a = (i, h, tt)
insert_by_key-Ascending widest from x (y ∷ ys) i h a = elim (dec_le x.1 y.1) [
  | yes below ↦ rw (le→leb x.1 y.1 below) (i, h, (a.0, below, a.2))
  | no above ↦
      rw (lt→leb_false x.1 y.1 (omega arith))
        (a.0, a.1, insert_by_key-Ascending widest y.1 x ys i (omega arith) a.2)
]

sort_by_key-Ascending :
    (widest : ℕ) (es : List (ℕ × ℕ))
    → All (IsEntry widest) es
    → Ascending widest 0 (sort_by_key width_of es)
unfolding sort_by_key
sort_by_key-Ascending widest [] a = tt
sort_by_key-Ascending widest (e ∷ es) a =
    insert_by_key-Ascending widest 0 e (sort_by_key width_of es) a.0 (omega arith)
      (sort_by_key-Ascending widest es a.1)

used_symbols-IsEntry :
    (widest i : ℕ) (widths : List ℕ)
    → i + length widths ≤ 2048
    → maximum widths ≤ widest
    → All (IsEntry widest) (used_symbols i widths)
unfolding used_symbols
used_symbols-IsEntry widest i [] h m = tt
used_symbols-IsEntry widest i (width ∷ widths) h m =
    let cast : u16 i ≡ i = mod-eq_of_lt (omega arith) in
    let rest = used_symbols-IsEntry widest (i + 1) widths (omega arith) (omega arith) in
    elim (dec_lt 0 width) [
      | yes used ↦
          rw (lt→ltb 0 width used, cast)
            (record { positive = omega arith; inside = omega arith; low = omega arith }, rest)
      | no unused ↦ rw (le→ltb_false 0 width (omega arith)) rest
    ]

-- The entries that both tables are built from.
pub entries-Ascending :
    (lengths : List ℕ)
    → length lengths ≤ 2048
    → Ascending (maximum lengths) 0 (sort_by_key width_of (used_symbols 0 lengths))
entries-Ascending lengths h =
    sort_by_key-Ascending (maximum lengths) (used_symbols 0 lengths)
      (used_symbols-IsEntry (maximum lengths) 0 lengths (omega arith) (omega arith))
