-- ===== src/Symbol/Laws.antt =====
-- The symbols of lengths and distances against the tables that the decoder reads.
use mathlib.Core.Path.{subst}
use native.Mathlib.Decide.{dec_le, dec_lt}
use noflate.Base.{
  ℕ, ◌+◌, ◌-◌, ◌^◌, ◌≤◌, ◌<◌, ◌≡◌, ap, none, some, List, [], ◌∷◌, reverse, get_elem?, ltb,
  if◌then◌else◌, arith, le→leb, lt→leb_false, lt→ltb,
}
use noflate.Error.{ok}
use noflate.Symbol.{
  EncodedSymbol, length_table, distance_table, enumerate_from, search_down, length_to_symbol,
  distance_to_symbol,
}

-- What the decoder adds up: the base of a symbol's entry and its extra bits, `n` in all. The extra
-- value fits its bits, and there is one exactly where the entry has extra bits.
pub data Decodes (table : List (ℕ × ℕ)) (first n : ℕ) (s : EncodedSymbol) : Type 0 where
  plain :
      {base : ℕ}
      → first ≤ s.code
      → get_elem? table (s.code - first) ≡ some (base, 0)
      → s.extra ≡ none
      → base ≡ n
      → Decodes table first n s
  with_extra :
      {base bits value : ℕ}
      → first ≤ s.code
      → get_elem? table (s.code - first) ≡ some (base, bits)
      → 0 < bits
      → s.extra ≡ some (bits, value)
      → value < 2 ^ bits
      → base + value ≡ n
      → Decodes table first n s

-- The entries below `top`, highest first: each stands in `table` at its index, and the range of each
-- reaches to the base of the one above.
abbrev Chained : List (ℕ × ℕ) → ℕ → List (ℕ × (ℕ × ℕ)) → Type 0
Chained table top [] = Unit
Chained table top ((index, (base, bits)) ∷ rest) =
    (get_elem? table index ≡ some (base, bits)) × (top ≤ base + 2 ^ bits) × Chained table base rest

-- The base of the last entry.
abbrev lowest : ℕ → List (ℕ × (ℕ × ℕ)) → ℕ
lowest top [] = top
lowest top ((index, (base, bits)) ∷ rest) = lowest base rest

-- The entry that the search stops at.
found : (first index base bits n : ℕ) → EncodedSymbol
found first index base bits n = record {
  code = first + index;
  extra = if ltb 0 bits then some (bits, n - base) else none;
}

found-Decodes :
    (table : List (ℕ × ℕ)) (first index base bits n top : ℕ)
    → get_elem? table index ≡ some (base, bits)
    → top ≤ base + 2 ^ bits
    → base ≤ n
    → n < top
    → Decodes table first n (found first index base bits n)
unfolding found
found-Decodes table first index base bits n top at reach low high =
    let back : first + index - first ≡ index = omega arith in
    elim (dec_lt 0 bits) [
      | yes some_bits ↦
          with_extra {base = base} {bits = bits} {value = n - base} (omega arith) (rw back at)
            some_bits (rw (lt→ltb 0 bits some_bits)) (omega arith) (omega arith)
      | no none_left ↦
          let e : bits ≡ 0 = omega arith in
          let width : 2 ^ bits ≡ 1 = ap (λ (k : ℕ). 2 ^ k) e in
          plain {base = base} (omega arith)
            (rw back (subst (λ (k : ℕ). get_elem? table index ≡ some (base, k)) e at)) (rw e)
            (omega arith)
    ]

search_down-Decodes :
    (table : List (ℕ × ℕ)) (first n top : ℕ) (entries : List (ℕ × (ℕ × ℕ)))
    → Chained table top entries
    → lowest top entries ≤ n
    → n < top
    → (s : EncodedSymbol) × (search_down first n entries ≡ ok s) × Decodes table first n s
unfolding search_down
search_down-Decodes table first n top [] c low high = absurd (omega arith)
search_down-Decodes table first n top ((index, (base, bits)) ∷ rest) c low high =
    elim (dec_le base n) [
      | yes here ↦ (
        found first index base bits n,
        unfold found in rw (le→leb base n here),
        found-Decodes table first index base bits n top c.0 c.1 here high,
      )
      | no above ↦
          rw (lt→leb_false base n (omega arith))
            (search_down-Decodes table first n base rest c.2 low (omega arith))
    ]

length_chain : Chained length_table 259 (reverse (enumerate_from 0 length_table))
length_chain = ground arith

distance_chain : Chained distance_table 32769 (reverse (enumerate_from 0 distance_table))
distance_chain = ground arith

-- Every match length has a symbol, and the decoder's table gives the length back from it.
pub length_to_symbol-Decodes :
    (n : ℕ)
    → 3 ≤ n
    → n ≤ 258
    → (s : EncodedSymbol) × (length_to_symbol n ≡ ok s) × Decodes length_table 257 n s
unfolding length_to_symbol
length_to_symbol-Decodes n low high =
    search_down-Decodes length_table 257 n 259 (reverse (enumerate_from 0 length_table))
      length_chain low (omega arith)

-- Every distance of the window has a symbol, and the decoder's table gives the distance back from it.
pub distance_to_symbol-Decodes :
    (n : ℕ)
    → 1 ≤ n
    → n ≤ 32768
    → (s : EncodedSymbol) × (distance_to_symbol n ≡ ok s) × Decodes distance_table 0 n s
unfolding distance_to_symbol
distance_to_symbol-Decodes n low high =
    search_down-Decodes distance_table 0 n 32769 (reverse (enumerate_from 0 distance_table))
      distance_chain low (omega arith)
