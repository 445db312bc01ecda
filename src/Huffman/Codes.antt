-- ===== src/Huffman/Codes.antt =====
-- What the encoder and the decoder of src/huffman.rs share.
use noflate.Base.{
  ℕ, zero, suc, ◌+◌, List, [], ◌∷◌, leb, ltb, if◌then◌else◌, u16, ◌<<<◌, ◌>>>◌, bit_and, bit_or,
}

-- The loop of `reverse_bits` with `n` rounds left.
unfoldable pub reverse_loop : ℕ → ℕ → ℕ → ℕ
reverse_loop zero from to = to
reverse_loop (suc n) from to =
    reverse_loop n (from >>> 1) (bit_or (u16 (to <<< 1)) (bit_and from 1))

unfoldable pub reverse_bits : ℕ → ℕ → ℕ
unfolding reverse_loop
reverse_bits b width = reverse_loop width b 0

module _ {ℓ} {A : Type ℓ} (key : A → ℕ) where
  unfoldable pub insert_by_key : A → List A → List A
  insert_by_key x [] = x ∷ []
  insert_by_key x (y ∷ ys) =
      let rest = insert_by_key x ys in if leb (key x) (key y) then x ∷ (y ∷ ys) else y ∷ rest

  -- `sort_by_key`, which is stable.
  unfoldable pub sort_by_key : List A → List A
  unfolding insert_by_key
  sort_by_key [] = []
  sort_by_key (x ∷ xs) = insert_by_key x (sort_by_key xs)

-- `lengths.iter().enumerate()` with the symbols of width 0 left out; the first symbol is `i`.
unfoldable pub used_symbols : ℕ → List ℕ → List (ℕ × ℕ)
used_symbols i [] = []
used_symbols i (width ∷ widths) =
    let rest = used_symbols (i + 1) widths in if ltb 0 width then (u16 i, width) ∷ rest else rest

abbrev pub width_of : ℕ × ℕ → ℕ
width_of e = e.1
