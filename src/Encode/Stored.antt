-- ===== src/Encode/Stored.antt =====
-- What src/encode.rs writes of stored blocks.
mod Layout
pub use Layout.*
use mathlib.Core.Path.{subst}
use native.Mathlib.Decide.{dec_le}
use noflate.Base.{
  ℕ, zero, suc, ◌-◌, ◌≤◌, ◌<◌, ◌≡◌, refl, sym, ap, ap₂, ◌∙◌, min, Bool, true, false, ◌&&◌, List, [],
  ◌∷◌, ◌++◌, append_assoc, append-nil, arith, length, length-take, length-drop, take, drop,
  take-append-drop, take-le, drop-le, ◌==◌, if◌then◌else◌, lt→ltb, le_bytes_16, u16, All,
  All-append,
}
use noflate.Symbol.{max_stored_block}
use noflate.Bit.Writer.{Writer, write_bit, align_to_byte}
use noflate.Encode.Blocks.{write_stored, stored_blocks, emit_stored}

-- The writer on a byte boundary behind `out`.
abbrev pub aligned : List ℕ → Writer
aligned out = record { output = out; bit_buffer = 0; bit_count = 0 }

write_stored-aligned :
    (is_final : Bool) (b out : List ℕ)
    → FitsBlock b
    → write_stored is_final b (aligned out) ≡ aligned (out ++ block_bytes is_final b)
unfolding write_stored write_bit align_to_byte
write_stored-aligned true b out h =
    let e : u16 (length b) ≡ length b = omega arith in
    rw e (
      ap aligned (
        append_assoc out (1 ∷ [])
          (le_bytes_16 (length b) ++ (le_bytes_16 (65535 - length b) ++ b))))
write_stored-aligned false b out h =
    let e : u16 (length b) ≡ length b = omega arith in
    rw e (
      ap aligned (
        append_assoc out (0 ∷ [])
          (le_bytes_16 (length b) ++ (le_bytes_16 (65535 - length b) ++ b))))

-- What a write appends to the output of an aligned writer, which stays aligned.
abbrev pub Appends : (List ℕ → Type 0) → List ℕ → Writer → Type 0
Appends P out w = (encoded : List ℕ) × (w ≡ aligned (out ++ encoded)) × P encoded

-- The rest of a chunk behind a block, once the block is written.
Appends-rest :
    (P Q : List ℕ → Type 0) (a out : List ℕ) (w : Writer)
    → ((b : List ℕ) → P b → Q (a ++ b))
    → Appends P (out ++ a) w
    → Appends Q out w
Appends-rest P Q a out w join (b, e, p) = (a ++ b, e ∙ ap aligned (append_assoc out a b), join b p)

sub_len : List ℕ → ℕ
sub_len chunk = min max_stored_block (length chunk)

sub_len_pos : (chunk : List ℕ) → 0 < length chunk → 0 < sub_len chunk
unfolding sub_len
sub_len_pos chunk h = omega arith

module _ (fuel : ℕ) (chunk out : List ℕ) (some : 0 < length chunk) where
  first_fits : FitsBlock (take (sub_len chunk) chunk)
  unfolding sub_len
  first_fits = omega (arith, length-take {0} (min max_stored_block (length chunk)) chunk)

  -- A round that does not write the last block.
  round_not_last :
      (is_final : Bool)
      → (is_final && (sub_len chunk == length chunk)) ≡ false
      → stored_blocks (suc fuel) is_final chunk (aligned out)
        ≡ stored_blocks fuel is_final
            (drop (sub_len chunk) chunk)
            (aligned (out ++ block_bytes false (take (sub_len chunk) chunk)))
  unfolding stored_blocks sub_len
  round_not_last is_final other =
      rw (lt→ltb 0 (length chunk) some, other)
        (ap (stored_blocks fuel is_final _) (write_stored-aligned false _ out first_fits))

stored_blocks-IsBlocks :
    (fuel : ℕ) (chunk out : List ℕ)
    → length chunk ≤ fuel
    → Appends (IsBlocks chunk) out (stored_blocks fuel false chunk (aligned out))
stored_blocks-IsBlocks zero [] out enough =
    ([], unfold stored_blocks in sym (ap aligned (append-nil out)), nil-IsBlocks)
stored_blocks-IsBlocks zero (x ∷ xs) out enough = absurd (omega arith)
stored_blocks-IsBlocks (suc fuel) [] out enough =
    ([], unfold stored_blocks in sym (ap aligned (append-nil out)), nil-IsBlocks)
stored_blocks-IsBlocks (suc fuel) (x ∷ xs) out enough =
    let chunk = x ∷ xs in
    let n = sub_len chunk in
    let fits = first_fits fuel chunk out (omega arith) in
    rw (round_not_last fuel chunk out (omega arith) false refl) (
      Appends-rest (IsBlocks (drop n chunk)) (IsBlocks chunk) (block_bytes false (take n chunk)) out
        _
        (λ b p.
          subst (λ c. IsBlocks c (block_bytes false (take n chunk) ++ b)) (take-append-drop n chunk)
            (IsBlocks-append (block_bytes-IsBlocks (take n chunk) fits) p))
        (stored_blocks-IsBlocks fuel (drop n chunk) (out ++ block_bytes false (take n chunk))
          (omega (arith, length-drop {0} n chunk, sub_len_pos chunk (omega arith)))))

-- A chunk that is one block, written as the last.
stored_blocks_last :
    (fuel : ℕ) (chunk out : List ℕ)
    → 0 < length chunk
    → FitsBlock chunk
    → stored_blocks (suc fuel) true chunk (aligned out) ≡ aligned (out ++ block_bytes true chunk)
unfolding stored_blocks
stored_blocks_last fuel chunk out some fits =
    let whole : min max_stored_block (length chunk) ≡ length chunk = omega arith in
    let last : (length chunk == length chunk) ≡ true = ground arith in
    rw
      (
        lt→ltb 0 (length chunk) some,
        whole,
        last,
        take-le (length chunk) chunk (omega arith),
        drop-le (length chunk) chunk (omega arith),
        write_stored-aligned true chunk out fits,
      )
      (stops fuel (aligned (out ++ block_bytes true chunk)))
  where
    stops : (fuel : ℕ) (w : Writer) → stored_blocks fuel true [] w ≡ w
    stops zero w = refl
    stops (suc fuel) w = refl

stored_blocks-IsStream :
    (fuel : ℕ) (chunk out : List ℕ)
    → 0 < length chunk
    → length chunk ≤ fuel
    → Appends (IsStream chunk) out (stored_blocks fuel true chunk (aligned out))
stored_blocks-IsStream zero chunk out some enough = absurd (omega arith)
stored_blocks-IsStream (suc fuel) chunk out some enough =
    elim (dec_le (length chunk) max_stored_block) [
      | yes one ↦ (
        block_bytes true chunk,
        stored_blocks_last fuel chunk out some one,
        block_bytes-IsStream chunk one,
      )
      | no more ↦
          let n = sub_len chunk in
          let fits = first_fits fuel chunk out some in
          let pos = sub_len_pos chunk some in
          let other : (n == length chunk) ≡ false = unfold sub_len in ground arith in
          rw (round_not_last fuel chunk out some true other) (
            Appends-rest (IsStream (drop n chunk)) (IsStream chunk)
              (block_bytes false (take n chunk)) out _
              (λ b p.
                subst (λ c. IsStream c (block_bytes false (take n chunk) ++ b))
                  (take-append-drop n chunk)
                  (IsBlocks-IsStream (block_bytes-IsBlocks (take n chunk) fits) p))
              (stored_blocks-IsStream fuel (drop n chunk) (out ++ block_bytes false (take n chunk))
                (unfold sub_len in omega (arith, length-drop {0} n chunk))
                (omega (arith, length-drop {0} n chunk, pos))))
    ]

-- A chunk written on a byte boundary as blocks that are not the last.
pub emit_stored-IsBlocks :
    (chunk out : List ℕ) → Appends (IsBlocks chunk) out (emit_stored false chunk (aligned out))
unfolding emit_stored
emit_stored-IsBlocks [] out = (
  block_bytes false [],
  write_stored-aligned false [] out (omega arith),
  block_bytes-IsBlocks [] (omega arith),
)
emit_stored-IsBlocks (x ∷ xs) out =
    let e : (length (x ∷ xs) == 0) ≡ false = ground arith in
    rw e (stored_blocks-IsBlocks (length (x ∷ xs)) (x ∷ xs) out (omega arith))

pub emit_stored-IsStream :
    (chunk out : List ℕ) → Appends (IsStream chunk) out (emit_stored true chunk (aligned out))
unfolding emit_stored
emit_stored-IsStream [] out = (
  block_bytes true [],
  write_stored-aligned true [] out (omega arith),
  block_bytes-IsStream [] (omega arith),
)
emit_stored-IsStream (x ∷ xs) out =
    let e : (length (x ∷ xs) == 0) ≡ false = ground arith in
    rw e (stored_blocks-IsStream (length (x ∷ xs)) (x ∷ xs) out (omega arith) (omega arith))
