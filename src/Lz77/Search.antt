-- ===== src/Lz77/Search.antt =====
-- The search of src/lz77.rs over a hash chain: what it finds is a match.
use native.Mathlib.Decide.{ℕ_discrete}
use noflate.Base.{
  ℕ, zero, suc, ◌+◌, ◌-◌, ◌≤◌, ◌<◌, ◌≡◌, ◌⊎◌, inl, inr, sym, ◌∙◌, Bool-cases, List, [], ◌∷◌, arith,
  length, drop, get_or, get_or-drop, ◌==◌, ltb, leb, not, ◌&&◌, ◌||◌, IsBytes,
}
use noflate.Symbol.{window_size, min_match, max_match}
use noflate.Lz77.{Best, nil, in_window, try_candidate, search_chain}
use noflate.Lz77.Prefix.{longest_common_prefix}
use noflate.Lz77.Matches.{common, longest_common_prefix-common}

common-get_or : (xs ys : List ℕ) (k : ℕ) → k < common xs ys → get_or xs k 0 ≡ get_or ys k 0
common-get_or [] ys k h = absurd (omega arith)
common-get_or (x ∷ xs) [] k h = absurd (omega arith)
common-get_or (x ∷ xs) (y ∷ ys) zero h = ground arith
common-get_or (x ∷ xs) (y ∷ ys) (suc k) h = elim (ℕ_discrete x y) [
  | yes e ↦ common-get_or xs ys k (ground arith)
  | no ne ↦ absurd (ground arith)
]

-- A match within the input, the window and the limits of the format.
pub record IsFound (input : List ℕ) (cursor : ℕ) (best : Best) : Type 0 where
  pub long : min_match ≤ best.len
  pub short : best.len ≤ max_match
  pub inside : cursor + best.len ≤ length input
  pub near : best.distance ≤ window_size
  pub positive : 1 ≤ best.distance
  pub reached : best.distance ≤ cursor
  pub same :
      (k : ℕ)
      → k < best.len
      → get_or input (cursor - best.distance + k) 0 ≡ get_or input (cursor + k) 0

abbrev pub IsMatch : List ℕ → ℕ → Best → Type 0
IsMatch input cursor best = (best.len ≡ 0) ⊎ IsFound input cursor best

module _ (input : List ℕ) (cursor max_length : ℕ) (bytes : IsBytes input)
    (room : cursor + max_length ≤ length input) (bounded : max_length ≤ max_match) where
  candidate-IsFound :
      (candidate : ℕ)
      → candidate < cursor
      → cursor ≤ candidate + window_size
      → min_match ≤ longest_common_prefix input candidate cursor max_length
      → IsFound input cursor (record {
        len = longest_common_prefix input candidate cursor max_length;
        distance = cursor - candidate;
      })
  candidate-IsFound candidate below near long =
      let whole =
        longest_common_prefix-common input candidate cursor max_length bytes (omega arith)
          (omega arith) in
      let back : cursor - (cursor - candidate) ≡ candidate = omega arith in
      record {
        long = long;
        short = omega (arith, whole);
        inside = omega (arith, whole);
        near = omega arith;
        positive = omega arith;
        reached = omega arith;
        same = λ k h. rw back (
            sym (get_or-drop candidate input k 0)
            ∙ common-get_or (drop candidate input) (drop cursor input) k (omega (arith, whole))
            ∙ get_or-drop cursor input k 0);
      }

  try_candidate-IsMatch :
      (candidate : ℕ) (best : Best)
      → candidate < cursor
      → cursor ≤ candidate + window_size
      → IsMatch input cursor best
      → IsMatch input cursor (try_candidate input cursor max_length candidate best)
  unfolding try_candidate
  try_candidate-IsMatch candidate best below near old =
      let len = longest_common_prefix input candidate cursor max_length in
      elim (Bool-cases (
        (best.len == 0)
        || ((get_or input (candidate + best.len) 0 == get_or input (cursor + best.len) 0)
            && (get_or input candidate 0 == get_or input cursor 0)))) [
              | inr skipped ↦ rw skipped old
              | inl tried ↦ elim (Bool-cases (leb min_match len && ltb best.len len)) [
                | inr worse ↦ rw (tried, worse) old
                | inl better ↦
                    rw (tried, better) (inr (candidate-IsFound candidate below near (ground arith)))
              ]
            ]

  pub search_chain-IsMatch :
      (prev : List ℕ) (n chain_pos : ℕ) (best : Best)
      → IsMatch input cursor best
      → IsMatch input cursor (search_chain input cursor max_length prev n chain_pos best)
  unfolding search_chain
  search_chain-IsMatch prev zero chain_pos best old = old
  search_chain-IsMatch prev (suc n) chain_pos best old =
      let best' = try_candidate input cursor max_length chain_pos best in
      elim (Bool-cases (
        not (chain_pos == nil) && (leb (cursor - window_size) chain_pos && ltb chain_pos cursor))) [
          | inr ended ↦ rw ended old
          | inl on ↦
              let new = try_candidate-IsMatch chain_pos best (ground arith) (ground arith) old in
              elim (Bool-cases (not (best.len == best'.len) && (best'.len == max_length))) [
                | inl full ↦ rw (on, full) new
                | inr more ↦
                    rw (on, more)
                      (search_chain-IsMatch prev n (get_or prev (in_window chain_pos) nil) best'
                        new)
              ]
        ]
