-- ===== src/Lz77.antt =====
-- src/lz77.rs: the hash-chain match finder. The `u32` positions in its tables are exact for inputs
-- below 4 GiB, which is assumed of the length of a chunk.
pub mod Prefix
pub mod Mismatch
pub mod Matches
pub mod Search
pub mod Reach
pub mod Expand
use noflate.Base.{
  ℕ, zero, suc, ◌+◌, ◌-◌, ◌*◌, ◌/◌, ◌%◌, ◌^◌, ◌≤◌, ◌<◌, min, Bool, true, false, not, ◌&&◌, ◌||◌,
  List, [], ◌∷◌, ◌++◌, map, length, get_or, set, replicate, leb, ltb, ◌==◌, if◌then◌else◌, u32,
  ◌<<<◌, bit_and, bit_xor,
}
use noflate.Symbol.{window_size, min_match, max_match}
use Prefix.{longest_common_prefix}

abbrev pub hash_size : ℕ
hash_size = 2 ^ 15

abbrev pub max_chain_len : ℕ
max_chain_len = 32

abbrev pub nil : ℕ
nil = 2 ^ 32 - 1

pub data Lz77Code : Type 0 where
  literal : ℕ → Lz77Code
  pointer : ℕ → ℕ → Lz77Code

-- The callers have three bytes from `pos` on.
unfoldable pub hash3 : List ℕ → ℕ → ℕ
hash3 input pos =
    bit_and
      (bit_xor (bit_xor (get_or input pos 0 <<< 10) (get_or input (pos + 1) 0 <<< 5))
        (get_or input (pos + 2) 0))
      (hash_size - 1)

pub record MatchFinder : Type 0 where
  pub head : List ℕ
  pub prev : List ℕ
  pub head_dirty : Bool

unfoldable pub new : MatchFinder
new = record { head = []; prev = []; head_dirty = false }

-- `best_length` and `best_distance`.
pub record Best : Type 0 where
  pub len : ℕ
  pub distance : ℕ

abbrev pub no_match : Best
no_match = record { len = 0; distance = 0 }

abbrev pub in_window : ℕ → ℕ
in_window pos = bit_and pos (window_size - 1)

module _ (input : List ℕ) (cursor max_length : ℕ) where
  -- What a candidate makes of the best match so far.
  unfoldable pub try_candidate : ℕ → Best → Best
  try_candidate candidate best =
      let len = longest_common_prefix input candidate cursor max_length in
      if (best.len == 0)
        || ((get_or input (candidate + best.len) 0 == get_or input (cursor + best.len) 0)
            && (get_or input candidate 0 == get_or input cursor 0))
      then (if leb min_match len && ltb best.len len
          then record { len = len; distance = cursor - candidate }
          else best)
      else best

  -- The `while` over the chain, with `n` of its 32 rounds left. It breaks on a match of full length.
  unfoldable pub search_chain : List ℕ → ℕ → ℕ → Best → Best
  unfolding try_candidate
  search_chain prev zero chain_pos best = best
  search_chain prev (suc n) chain_pos best =
      let best' = try_candidate chain_pos best in
      let more = search_chain prev n (get_or prev (in_window chain_pos) nil) best' in
      if not (chain_pos == nil) && (leb (cursor - window_size) chain_pos && ltb chain_pos cursor)
      then (if not (best.len == best'.len) && (best'.len == max_length) then best' else more)
      else best

-- `prev[pos & mask] = head[h]; head[h] = pos` for the three bytes at `pos`.
pub insert_position : List ℕ → ℕ → MatchFinder → MatchFinder
unfolding hash3
insert_position input pos m =
    let h = hash3 input pos in
    record m {
      prev = set m.prev (in_window pos) (get_or m.head h nil);
      head = set m.head h (u32 pos);
    }

-- The `for i in 1..best_length`, with `n` rounds left.
pub insert_positions : ℕ → List ℕ → ℕ → MatchFinder → MatchFinder
unfolding insert_position
insert_positions zero input pos m = m
insert_positions (suc n) input pos m =
    insert_positions n input (pos + 1)
      (if leb (pos + min_match) (length input) then insert_position input pos m else m)

-- The match that the chain of the bytes at `cursor` gives.
pub find_match : List ℕ → ℕ → MatchFinder → Best
unfolding search_chain hash3
find_match input cursor m =
    search_chain input cursor (min (length input - cursor) max_match) m.prev max_chain_len
      (get_or m.head (hash3 input cursor) nil) no_match

-- The `while cursor < input.len()`. A round moves the cursor by one at least.
pub tokens : ℕ → List ℕ → ℕ → MatchFinder → List Lz77Code × MatchFinder
unfolding find_match insert_positions
tokens zero input cursor m = ([], m)
tokens (suc fuel) input cursor m =
    let best = find_match input cursor m in
    let inserted = insert_position input cursor m in
    let plain = tokens fuel input (cursor + 1) m in
    let single = tokens fuel input (cursor + 1) inserted in
    let matched =
      tokens fuel input (cursor + best.len)
        (insert_positions (best.len - 1) input (cursor + 1) inserted) in
    if ltb cursor (length input)
    then (if ltb (length input) (cursor + min_match)
        then (literal (get_or input cursor 0) ∷ plain.0, plain.1)
        else if leb min_match best.len
        then (pointer best.len best.distance ∷ matched.0, matched.1)
        else (literal (get_or input cursor 0) ∷ single.0, single.1))
    else ([], m)

-- `head` is allocated, or emptied if a call before has written to it; `prev` grows to what is needed.
pub prepare : ℕ → MatchFinder → MatchFinder
prepare n m = record {
  head = (if (length m.head == 0) || m.head_dirty then replicate hash_size nil else m.head);
  prev = m.prev ++ replicate (min n window_size - length m.prev) nil;
  head_dirty = true;
}

pub fill_symbols : List ℕ → MatchFinder → List Lz77Code × MatchFinder
unfolding tokens prepare
fill_symbols input m =
    if ltb (length input) min_match
    then (map literal input, m)
    else tokens (length input) input 0 (prepare (length input) m)
