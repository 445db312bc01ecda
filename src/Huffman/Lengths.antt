-- ===== src/Huffman/Lengths.antt =====
-- `length_limited_code_lengths` of src/huffman.rs: the package-merge algorithm.
use noflate.Base.{
  ℕ, zero, suc, ◌+◌, ◌-◌, min, max, Bool, true, false, ◌&&◌, ◌||◌, Option, none, some, List, [],
  ◌∷◌, ◌++◌, length, get_or, set, replicate, leb, ltb, ◌==◌, if◌then◌else◌, u8, u16, foldl,
}
use noflate.Huffman.Codes.{sort_by_key}

-- The entries of the heap hold the negated weight; here its absolute value. `BinaryHeap::pop` gives
-- the greatest entry: the least weight, and of those the greatest width.
abbrev comes_first : ℕ × ℕ → ℕ × ℕ → Bool
comes_first (f, w) (g, v) = ltb f g || ((f == g) && leb v w)

pop : List (ℕ × ℕ) → Option ((ℕ × ℕ) × List (ℕ × ℕ))
pop [] = none
pop (x ∷ xs) = elim (pop xs) [
  | none ↦ some (x, [])
  | some (y, ys) ↦ if comes_first x y then some (x, y ∷ ys) else some (y, x ∷ ys)
]

-- The `while heap.len() > 1`. A round takes an entry away.
merge_heap : ℕ → List (ℕ × ℕ) → List (ℕ × ℕ)
unfolding pop
merge_heap zero heap = heap
merge_heap (suc fuel) heap = elim (pop heap) [
  | none ↦ heap
  | some ((f, w), rest) ↦ elim (pop rest) [
    | none ↦ heap
    | some ((g, v), others) ↦ merge_heap fuel ((f + g, u8 (1 + max w v)) ∷ others)
  ]
]

abbrev initial_heap : List ℕ → List (ℕ × ℕ)
initial_heap [] = []
initial_heap (f ∷ fs) = if ltb 0 f then (f, 0) ∷ initial_heap fs else initial_heap fs

abbrev width_or_zero : Option ((ℕ × ℕ) × List (ℕ × ℕ)) → ℕ
width_or_zero none = 0
width_or_zero (some ((f, w), rest)) = w

unfoldable pub ordinary_huffman_optimal_max_bitwidth : List ℕ → ℕ
unfolding merge_heap
ordinary_huffman_optimal_max_bitwidth frequencies =
    let heap = initial_heap frequencies in
    max 1 (width_or_zero (pop (merge_heap (length heap) heap)))

pub record Node : Type 0 where
  pub symbols : List ℕ
  pub weight : ℕ

unfoldable pub merge_nodes : List Node → List Node → List Node
merge_nodes [] right = right
merge_nodes (l ∷ left) [] = l ∷ left
merge_nodes (l ∷ left) (r ∷ right) = elim (ltb l.weight r.weight) [
  | true ↦ l ∷ merge_nodes left (r ∷ right)
  | false ↦ r ∷ merge_nodes (l ∷ left) right
]

-- The loop over the pairs; an odd node at the end is left out.
package_pairs : List Node → List Node
package_pairs [] = []
package_pairs (a ∷ []) = []
package_pairs (a ∷ (b ∷ rest)) =
    record { symbols = a.symbols ++ b.symbols; weight = a.weight + b.weight } ∷ package_pairs rest

unfoldable pub package_nodes : List Node → List Node
unfolding package_pairs
package_nodes nodes = if ltb (length nodes) 2 then nodes else package_pairs nodes

abbrev leaves : ℕ → List ℕ → List Node
leaves i [] = []
leaves i (f ∷ fs) =
    if ltb 0 f
    then record { symbols = u16 i ∷ []; weight = f } ∷ leaves (i + 1) fs
    else leaves (i + 1) fs

abbrev weight_of : Node → ℕ
weight_of node = node.weight

-- The `fold` over `0..max_bitwidth - 1`, with `n` rounds left.
merge_rounds : ℕ → List Node → List Node → List Node
unfolding merge_nodes package_nodes
merge_rounds zero source weighted = weighted
merge_rounds (suc n) source weighted =
    merge_rounds n source (merge_nodes (package_nodes weighted) source)

-- `widths[sym] += 1`
count_symbol : List ℕ → ℕ → List ℕ
count_symbol widths sym = set widths sym (u8 (get_or widths sym 0 + 1))

unfoldable pub package_merge_code_lengths : List ℕ → ℕ → List ℕ
unfolding merge_rounds package_nodes count_symbol sort_by_key
package_merge_code_lengths frequencies max_bitwidth =
    let source = sort_by_key weight_of (leaves 0 frequencies) in
    let weighted = merge_rounds (max_bitwidth - 1) source source in
    foldl (λ widths node. foldl count_symbol widths node.symbols) (replicate (length frequencies) 0)
      (package_nodes weighted)

unfoldable pub length_limited_code_lengths : List ℕ → ℕ → List ℕ
unfolding ordinary_huffman_optimal_max_bitwidth package_merge_code_lengths
length_limited_code_lengths frequencies max_bitwidth =
    package_merge_code_lengths frequencies
      (min max_bitwidth (ordinary_huffman_optimal_max_bitwidth frequencies))
