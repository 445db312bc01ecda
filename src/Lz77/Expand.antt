-- ===== src/Lz77/Expand.antt =====
-- The tokens of src/lz77.rs against the copy that the decoder makes of them.
use native.Mathlib.Decide.{dec_lt}
use noflate.Base.{
  ℕ, zero, suc, ◌+◌, ◌-◌, ◌≤◌, ◌<◌, ◌≡◌, inl, inr, refl, sym, ap, ◌∙◌, min, List, [], ◌∷◌, ◌++◌,
  map, arith, length, length-take, take, get_or, get_or-take, take-suc_get, take-le, IsBytes,
  get_or_byte, All, lt→ltb, le→ltb_false, le→leb, lt→leb_false, append-nil, append_assoc,
}
use noflate.Symbol.{min_match, max_match}
use noflate.Decode.Copy.Repeats.{copy_bytes}
use noflate.Lz77.{
  Lz77Code, literal, pointer, MatchFinder, Best, no_match, nil, max_chain_len, find_match,
  insert_position, insert_positions, tokens, prepare, fill_symbols, hash3,
}
pub use noflate.Lz77.Reach.{expand, IsToken}
use noflate.Lz77.Reach.{Reaches}
use noflate.Lz77.Search.{IsFound, IsMatch, search_chain-IsMatch}

-- Copying a match goes on with the input.
copy_bytes-IsFound :
    (input : List ℕ) (distance n cursor : ℕ)
    → 1 ≤ distance
    → distance ≤ cursor
    → cursor + n ≤ length input
    → ((k : ℕ) → k < n → get_or input (cursor - distance + k) 0 ≡ get_or input (cursor + k) 0)
    → copy_bytes distance n (take cursor input) ≡ take (cursor + n) input
unfolding copy_bytes
copy_bytes-IsFound input distance zero cursor pos far room same =
    ap (λ k. take k input) {x = cursor} {y = cursor + 0} (omega arith)
copy_bytes-IsFound input distance (suc n) cursor pos far room same =
    let all : length (take cursor input) ≡ cursor = omega (arith, length-take {0} cursor input) in
    let zero_a : cursor - distance + 0 ≡ cursor - distance = omega arith in
    let zero_b : cursor + 0 ≡ cursor = omega arith in
    let first : get_or input (cursor - distance) 0 ≡ get_or input cursor 0 =
      rw (← zero_a) (same 0 (omega arith) ∙ ap (λ i. get_or input i 0) zero_b) in
    let byte : get_or (take cursor input) (length (take cursor input) - distance) 0
        ≡ get_or input cursor 0 =
      ap (λ i. get_or (take cursor input) (i - distance) 0) all
      ∙ get_or-take cursor input (cursor - distance) 0 (omega arith)
      ∙ first in
    ap (λ x. copy_bytes distance n (take cursor input ++ x ∷ [])) byte
    ∙ ap (copy_bytes distance n) (sym (take-suc_get cursor input 0 (omega arith)))
    ∙ copy_bytes-IsFound input distance n (suc cursor) pos (omega arith) (omega arith)
        (λ k h. shifted k (omega arith))
    ∙ ap (λ k. take k input) {x = suc cursor + n} {y = cursor + suc n} (omega arith)
  where
    shifted :
        (k : ℕ)
        → k < n
        → get_or input (suc cursor - distance + k) 0 ≡ get_or input (suc cursor + k) 0
    shifted k h =
        let e : suc cursor - distance + k ≡ cursor - distance + suc k = omega arith in
        let f : suc cursor + k ≡ cursor + suc k = omega arith in
        rw (e, f) (same (suc k) (omega arith))

literals-expand :
    (xs out : List ℕ) (have : ℕ)
    → IsBytes xs
    → (expand (map literal xs) out ≡ out ++ xs)
      × All IsToken (map literal xs)
      × Reaches (map literal xs) have
literals-expand [] out have b = (sym (append-nil out), tt, tt)
literals-expand (x ∷ xs) out have b =
    let rest = literals-expand xs (out ++ x ∷ []) (have + 1) b.1 in
    (rest.0 ∙ append_assoc out (x ∷ []) xs, (b.0, rest.1), (tt, rest.2))

module _ (input : List ℕ) (bytes : IsBytes input) where
  find_match-IsMatch :
      (cursor : ℕ) (m : MatchFinder)
      → cursor ≤ length input
      → IsMatch input cursor (find_match input cursor m)
  unfolding find_match
  find_match-IsMatch cursor m h =
      search_chain-IsMatch input cursor (min (length input - cursor) max_match) bytes (omega arith)
        (omega arith) m.prev max_chain_len (get_or m.head (hash3 input cursor) nil) no_match
        (inl refl)

  -- What `ts` makes of the input up to `cursor`.
  abbrev Covers : ℕ → List Lz77Code → Type 0
  Covers cursor ts = (expand ts (take cursor input) ≡ input) × All IsToken ts × Reaches ts cursor

  literal-Covers :
      (cursor : ℕ) (ts : List Lz77Code)
      → cursor < length input
      → Covers (cursor + 1) ts
      → Covers cursor (literal (get_or input cursor 0) ∷ ts)
  literal-Covers cursor ts h c = (
    ap (expand ts) (
          sym (take-suc_get cursor input 0 h)
          ∙ ap (λ k. take k input) {x = suc cursor} {y = cursor + 1} (omega arith))
        ∙ c.0,
    (get_or_byte input cursor bytes, c.1),
    (tt, c.2),
  )

  pointer-Covers :
      (cursor : ℕ) (best : Best) (ts : List Lz77Code)
      → IsFound input cursor best
      → Covers (cursor + best.len) ts
      → Covers cursor (pointer best.len best.distance ∷ ts)
  pointer-Covers cursor best ts f c = (
    ap (expand ts) (
          copy_bytes-IsFound input best.distance best.len cursor f.positive f.reached f.inside
            f.same)
        ∙ c.0,
    ((f.long, f.short, f.positive, f.near), c.1),
    (f.reached, c.2),
  )

  tokens-Covers :
      (fuel cursor : ℕ) (m : MatchFinder)
      → cursor ≤ length input
      → length input ≤ cursor + fuel
      → Covers cursor (tokens fuel input cursor m).0
  unfolding tokens
  tokens-Covers zero cursor m within enough = (take-le cursor input (omega arith), tt, tt)
  tokens-Covers (suc fuel) cursor m within enough = elim (dec_lt cursor (length input)) [
    | no done ↦
        rw (le→ltb_false cursor (length input) (omega arith))
          (take-le cursor input (omega arith), tt, tt)
    | yes more ↦ elim (dec_lt (length input) (cursor + min_match)) [
      | yes last ↦
          rw (lt→ltb cursor (length input) more, lt→ltb (length input) (cursor + min_match) last)
            (literal-Covers cursor _ more
              (tokens-Covers fuel (cursor + 1) m (omega arith) (omega arith)))
      | no three ↦
          let best = find_match input cursor m in
          let inserted = insert_position input cursor m in
          rw
            (
              lt→ltb cursor (length input) more,
              le→ltb_false (length input) (cursor + min_match) (omega arith),
            )
            (elim (find_match-IsMatch cursor m within) [
              | inl nothing ↦ rw (lt→leb_false min_match best.len (omega arith)) (
                  literal-Covers cursor _ more
                    (tokens-Covers fuel (cursor + 1) inserted (omega arith) (omega arith)))
              | inr f ↦ rw (le→leb min_match best.len f.long) (
                  pointer-Covers cursor best _ f (
                    tokens-Covers fuel (cursor + best.len)
                      (insert_positions (best.len - 1) input (cursor + 1) inserted) f.inside
                      (omega (arith, f.long))))
            ])
    ]
  ]

pub fill_symbols-Covers :
    (input : List ℕ) (m : MatchFinder)
    → IsBytes input
    → (expand (fill_symbols input m).0 [] ≡ input)
      × All IsToken (fill_symbols input m).0
      × Reaches (fill_symbols input m).0 0
unfolding fill_symbols
fill_symbols-Covers input m bytes = elim (dec_lt (length input) min_match) [
  | yes short ↦ rw (lt→ltb (length input) min_match short) (literals-expand input [] 0 bytes)
  | no long ↦ rw (le→ltb_false (length input) min_match (omega arith)) (
      tokens-Covers input bytes (length input) 0 (prepare (length input) m) (omega arith)
        (omega arith))
]

-- Whatever the tables of the match finder hold, the tokens of bytes expand to those bytes, and each
-- of them is within the lengths and the distances of the format.
pub fill_symbols-expand :
    (input : List ℕ) (m : MatchFinder)
    → IsBytes input
    → (expand (fill_symbols input m).0 [] ≡ input) × All IsToken (fill_symbols input m).0
fill_symbols-expand input m bytes =
    let covers = fill_symbols-Covers input m bytes in (covers.0, covers.1)
