-- ===== src/Symbol.antt =====
-- src/symbol.rs: the constants and tables of RFC 1951, and the symbols of lengths and distances.
pub mod Laws
use noflate.Base.{
  ℕ, zero, suc, ◌+◌, ◌-◌, ◌*◌, Option, none, some, List, [], ◌∷◌, ◌++◌, ltb, leb, if◌then◌else◌,
  length, reverse, replicate,
}
use noflate.Error.{Result, ok, panic}

abbrev pub max_bits : ℕ
max_bits = 15

abbrev pub end_of_block : ℕ
end_of_block = 256

abbrev pub window_size : ℕ
window_size = 32768

abbrev pub min_match : ℕ
min_match = 3

abbrev pub max_match : ℕ
max_match = 258

abbrev pub max_stored_block : ℕ
max_stored_block = 0xFFFF

abbrev pub bitwidth_code_order : List ℕ
bitwidth_code_order =
    16 ∷ 17 ∷ 18 ∷ 0 ∷ 8 ∷ 7 ∷ 9 ∷ 6 ∷ 10 ∷ 5 ∷ 11 ∷ 4 ∷ 12 ∷ 3 ∷ 13 ∷ 2 ∷ 14 ∷ 1 ∷ 15 ∷ []

-- Base and extra bits of the symbols from 257 on.
abbrev pub length_table : List (ℕ × ℕ)
length_table =
    (3, 0)
    ∷ (4, 0)
    ∷ (5, 0)
    ∷ (6, 0)
    ∷ (7, 0)
    ∷ (8, 0)
    ∷ (9, 0)
    ∷ (10, 0)
    ∷ (11, 1)
    ∷ (13, 1)
    ∷ (15, 1)
    ∷ (17, 1)
    ∷ (19, 2)
    ∷ (23, 2)
    ∷ (27, 2)
    ∷ (31, 2)
    ∷ (35, 3)
    ∷ (43, 3)
    ∷ (51, 3)
    ∷ (59, 3)
    ∷ (67, 4)
    ∷ (83, 4)
    ∷ (99, 4)
    ∷ (115, 4)
    ∷ (131, 5)
    ∷ (163, 5)
    ∷ (195, 5)
    ∷ (227, 5)
    ∷ (258, 0)
    ∷ []

-- Base and extra bits of the distance symbols from 0 on.
abbrev pub distance_table : List (ℕ × ℕ)
distance_table =
    (1, 0)
    ∷ (2, 0)
    ∷ (3, 0)
    ∷ (4, 0)
    ∷ (5, 1)
    ∷ (7, 1)
    ∷ (9, 2)
    ∷ (13, 2)
    ∷ (17, 3)
    ∷ (25, 3)
    ∷ (33, 4)
    ∷ (49, 4)
    ∷ (65, 5)
    ∷ (97, 5)
    ∷ (129, 6)
    ∷ (193, 6)
    ∷ (257, 7)
    ∷ (385, 7)
    ∷ (513, 8)
    ∷ (769, 8)
    ∷ (1025, 9)
    ∷ (1537, 9)
    ∷ (2049, 10)
    ∷ (3073, 10)
    ∷ (4097, 11)
    ∷ (6145, 11)
    ∷ (8193, 12)
    ∷ (12289, 12)
    ∷ (16385, 13)
    ∷ (24577, 13)
    ∷ []

pub record EncodedSymbol : Type 0 where
  pub code : ℕ
  pub extra : Option (ℕ × ℕ)

-- The entries with their indices, highest first.
abbrev pub enumerate_from {ℓ} : {A : Type ℓ} → ℕ → List A → List (ℕ × A)
enumerate_from i [] = []
enumerate_from i (x ∷ xs) = (i, x) ∷ enumerate_from (i + 1) xs

-- The loop of both functions: the first entry from the high end whose base is at most `n`. It is
-- `unreachable!` that there is none.
search_down : ℕ → ℕ → List (ℕ × (ℕ × ℕ)) → Result EncodedSymbol
search_down first n [] = panic
search_down first n ((index, (base, extra_bits)) ∷ rest) =
    if leb base n
    then ok (record {
      code = first + index;
      extra = if ltb 0 extra_bits then some (extra_bits, n - base) else none;
    })
    else search_down first n rest

pub length_to_symbol : ℕ → Result EncodedSymbol
unfolding search_down
length_to_symbol l = search_down 257 l (reverse (enumerate_from 0 length_table))

pub distance_to_symbol : ℕ → Result EncodedSymbol
unfolding search_down
distance_to_symbol d = search_down 0 d (reverse (enumerate_from 0 distance_table))

-- The `match index` of `fixed_literal_code_lengths`, over 0..=143, 144..=255, 256..=279 and 280..=287.
unfoldable pub fixed_literal_code_lengths : List ℕ
fixed_literal_code_lengths =
    replicate 144 8 ++ (replicate 112 9 ++ (replicate 24 7 ++ replicate 8 8))

unfoldable pub fixed_distance_code_lengths : List ℕ
fixed_distance_code_lengths = replicate 30 5
