-- ===== src/Crc32/Slices.antt =====
-- The table lookups of src/crc32.rs against the division one bit at a time.
use noflate.Base.{
  ℕ, zero, suc, ◌+◌, ◌-◌, ◌*◌, ◌/◌, ◌%◌, ◌^◌, ◌<◌, ◌≡◌, refl, sym, ap, ◌∙◌, List, [], ◌∷◌, arith,
  length, map, get_or, bit_xor, IsBytes,
}
use noflate.Base.Bits.{and_mask, zero_xor, xor_assoc, xor_comm, xor-shr}
use noflate.Crc32.{
  shift_bits, tabulate, first_table, next_table, table, entry, low_byte, word_entries, byte_step,
  byte_steps,
}
use noflate.Crc32.Bitwise.{bitwise, xor_shifted, shift_bits_xor, shift_bits_add, shift_bits_shifted}

get_or-tabulate : (f : ℕ → ℕ) (i n k : ℕ) → k < n → get_or (tabulate f i n) k 0 ≡ f (i + k)
get_or-tabulate f i zero k h = absurd (omega arith)
get_or-tabulate f i (suc n) zero h = ap f (omega arith)
get_or-tabulate f i (suc n) (suc k) h =
    get_or-tabulate f (i + 1) n k (omega arith) ∙ ap f (omega arith)

length-tabulate : (f : ℕ → ℕ) (i n : ℕ) → length (tabulate f i n) ≡ n
length-tabulate f i zero = refl
length-tabulate f i (suc n) = omega (arith, length-tabulate f (i + 1) n)

get_or-map :
    (f : ℕ → ℕ) (xs : List ℕ) (k : ℕ) → k < length xs → get_or (map f xs) k 0 ≡ f (get_or xs k 0)
get_or-map f [] k h = absurd (omega arith)
get_or-map f (x ∷ xs) zero h = refl
get_or-map f (x ∷ xs) (suc k) h = get_or-map f xs k (omega arith)

length-map_lem : (f : ℕ → ℕ) (xs : List ℕ) → length (map f xs) ≡ length xs
length-map_lem f [] = refl
length-map_lem f (x ∷ xs) = omega (arith, length-map_lem f xs)

length-table : (k : ℕ) → length (table k) ≡ 256
unfolding table next_table first_table
length-table zero = length-tabulate (shift_bits 8) 0 256
length-table (suc k) = length-map_lem _ (table k) ∙ length-table k

-- A register is its low byte, and the rest shifted.
split_byte : (c : ℕ) → c ≡ bit_xor (c % 256) (c / 256 * 2 ^ 8)
split_byte c = sym (xor_shifted 8 (c % 256) (c / 256) (omega arith) ∙ omega arith)

peel :
    (j w : ℕ)
    → shift_bits (8 + j) w ≡ bit_xor (shift_bits (8 + j) (w % 256)) (shift_bits j (w / 256))
peel j w =
    ap (shift_bits (8 + j)) (split_byte w)
    ∙ shift_bits_xor (8 + j) (w % 256) (w / 256 * 2 ^ 8)
    ∙ ap (bit_xor (shift_bits (8 + j) (w % 256)))
        (shift_bits_add 8 j (w / 256 * 2 ^ 8) ∙ ap (shift_bits j) (shift_bits_shifted 8 (w / 256)))

low_byte_lem : (c : ℕ) → low_byte c ≡ c % 256
low_byte_lem c = and_mask 8 c

first_entry : (i : ℕ) → i < 256 → get_or first_table i 0 ≡ shift_bits 8 i
unfolding first_table
first_entry i h =
    get_or-tabulate (shift_bits 8) 0 256 i h ∙ ap (shift_bits 8) {x = 0 + i} {y = i} (omega arith)

-- A lookup divides the low byte.
lookup : (c : ℕ) → bit_xor (c / 256) (get_or first_table (low_byte c) 0) ≡ shift_bits 8 c
unfolding shift_bits
lookup c =
    rw (low_byte_lem c, first_entry (c % 256) (omega arith))
      (xor_comm (c / 256) (shift_bits 8 (c % 256)) ∙ sym (peel 0 c))

-- `TABLE[k][i]` divides the byte `i` by `k + 1` bytes.
pub entry_lem : (k i : ℕ) → i < 256 → entry k i ≡ shift_bits (8 + 8 * k) i
unfolding entry table next_table
entry_lem zero i h = first_entry i h
entry_lem (suc k) i h =
    let n : 8 + 8 * suc k ≡ 8 + 8 * k + 8 = omega arith in
    get_or-map _ (table k) i (rw length-table h)
    ∙ lookup (get_or (table k) i 0)
    ∙ ap (shift_bits 8) (entry_lem k i h)
    ∙ sym (shift_bits_add (8 + 8 * k) 8 i)
    ∙ ap (λ m. shift_bits m i) (sym n)

pub byte_step_lem : (c x : ℕ) → x < 256 → byte_step c x ≡ shift_bits 8 (bit_xor c x)
unfolding byte_step entry table
byte_step_lem c x h =
    let e : x / 256 ≡ 0 = omega arith in
    let d : bit_xor c x / 256 ≡ c / 256 =
      xor-shr 8 c x ∙ ap (bit_xor (c / 256)) e ∙ zero_xor (c / 256) in
    ap (λ t. bit_xor t (get_or first_table (low_byte (bit_xor c x)) 0)) (sym d)
    ∙ lookup (bit_xor c x)

pub byte_steps_lem : (xs : List ℕ) (c : ℕ) → IsBytes xs → byte_steps xs c ≡ bitwise xs c
unfolding byte_steps
byte_steps_lem [] c h = refl
byte_steps_lem (x ∷ xs) c (h, t) =
    ap (byte_steps xs) (byte_step_lem c x h) ∙ byte_steps_lem xs (shift_bits 8 (bit_xor c x)) t

-- A lookup for the low byte, and one byte less to divide the rest by.
peel_entry :
    (k w : ℕ)
    → shift_bits (8 + 8 * suc k) w
      ≡ bit_xor (entry (suc k) (low_byte w)) (shift_bits (8 + 8 * k) (w / 256))
peel_entry k w =
    let e : 8 * suc k ≡ 8 + 8 * k = omega arith in
    rw (low_byte_lem w, entry_lem (suc k) (w % 256) (omega arith))
      (peel (8 * suc k) w
        ∙ ap (λ m. bit_xor (shift_bits (8 + 8 * suc k) (w % 256)) (shift_bits m (w / 256))) e)

-- The four lookups divide the word.
pub word_entries_lem :
    (k w : ℕ)
    → w < 2 ^ 32
    → word_entries (suc (suc (suc k))) w ≡ shift_bits (8 + 8 * suc (suc (suc k))) w
unfolding word_entries
word_entries_lem k w h =
    let a : suc (suc (suc k)) - 1 ≡ suc (suc k) = omega arith in
    let b : suc (suc (suc k)) - 2 ≡ suc k = omega arith in
    let c : suc (suc (suc k)) - 3 ≡ k = omega arith in
    let d : w / 65536 ≡ w / 256 / 256 = omega arith in
    let e : w / 16777216 ≡ w / 256 / 256 / 256 = omega arith in
    rw
      (
        a,
        b,
        c,
        d,
        e,
        entry_lem k (w / 256 / 256 / 256) (omega arith),
        peel_entry (suc (suc k)) w,
        peel_entry (suc k) (w / 256),
        peel_entry k (w / 256 / 256),
      )
      (xor_assoc _ _ _ ∙ xor_assoc _ _ _ ∙ ap (bit_xor _) refl)
