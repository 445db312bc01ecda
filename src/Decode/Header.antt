-- ===== src/Decode/Header.antt =====
-- The steps of src/decode.rs up to the symbols of a block.

use noflate.Base.{
  ℕ, zero, suc, ◌+◌, ◌-◌, ◌*◌, ◌/◌, ◌%◌, min, Bool, not, Option, none, some, List, [], ◌∷◌, ◌++◌,
  length, get_or, set, replicate, slice, leb, ltb, ◌==◌, if◌then◌else◌, u8,
}
use noflate.Error.{Result, ok, err, panic, out_of_fuel, invalid_data}
use noflate.Error.{
  reserved_block_type, nlen_mismatch, hdist_too_large, repeat_without_previous,
  invalid_code_length_symbol, code_lengths_exceed_table,
}
use noflate.Exec.{Exec, ◌>>=◌, ◌>>◌, raise, modify, gets}
use noflate.Symbol.{
  end_of_block, bitwidth_code_order, distance_table, fixed_literal_code_lengths,
  fixed_distance_code_lengths,
}
use noflate.Bit.Reader.{
  ReaderState, snapshot, available_bits, residual_bit_count, read_bit, read_bits, align_to_byte,
  read_bytes,
}
use noflate.Huffman.Decoder.{HuffmanDecoder, from_code_lengths, decode}
use noflate.Decode.State.{
  DecodeState, StepOutcome, Machine, on_reader, go_to, roll_back, or_roll_back, block_header,
  stored_align_and_len, stored_body, dynamic_header, dynamic_bitwidth_table, dynamic_code_lengths,
  symbol_loop, finished, progress, need_more_bytes, done,
}

-- A result of a pure function, with `?`.
abbrev pub lift {ℓ} : {A : Type ℓ} → Result A → Exec Machine A
lift r s = (r, s)

abbrev pub has_bits : ℕ → Machine → Bool
has_bits n s = leb n (available_bits s.reader)

-- The decoders of a block with fixed codes.
unfoldable pub fixed_block : Bool → Exec Machine StepOutcome
fixed_block is_final = do
  lit ← lift (from_code_lengths fixed_literal_code_lengths none (some end_of_block))
  dist ← lift (from_code_lengths fixed_distance_code_lengths (some 7) none)
  go_to (symbol_loop is_final lit dist) progress

-- The `match block_type`.
unfoldable pub start_block : Bool → ℕ → Exec Machine StepOutcome
start_block is_final block_type =
    if block_type == 0
    then go_to (stored_align_and_len is_final) progress
    else if block_type == 1
    then fixed_block is_final
    else if block_type == 2
    then go_to (dynamic_header is_final) progress
    else raise (invalid_data reserved_block_type)

unfoldable pub step_block_header : Exec Machine StepOutcome
unfolding start_block fixed_block roll_back on_reader
step_block_header = do
  snap ← gets (λ s. snapshot s.reader)
  enough ← gets (has_bits 3)
  if not enough then roll_back snap block_header else do
    is_final ← on_reader read_bit
    block_type ← on_reader (read_bits 2)
    start_block is_final block_type

-- `u16::from_le_bytes` of the two bytes from `i` on, and `!`.
abbrev pub le_u16 : List ℕ → ℕ → ℕ
le_u16 bytes i = get_or bytes i 0 + get_or bytes (i + 1) 0 * 256

abbrev pub complement_u16 : ℕ → ℕ
complement_u16 n = 65535 - n

-- The four bytes of LEN and NLEN. Any error of `read_bytes` is taken for a lack of bytes.
unfoldable pub take_lengths : ReaderState → Bool → Result (List ℕ) → Exec Machine StepOutcome
take_lengths snap is_final (ok bytes) =
    let len = le_u16 bytes 0 in
    let nlen = le_u16 bytes 2 in
    if complement_u16 len == nlen
    then go_to (stored_body len is_final) progress
    else raise (invalid_data (nlen_mismatch len nlen))
take_lengths snap is_final (err e) = roll_back snap (stored_align_and_len is_final)
take_lengths snap is_final panic = λ s. (panic, s)
take_lengths snap is_final out_of_fuel = λ s. (out_of_fuel, s)

unfoldable pub step_stored_align_and_len : Bool → Exec Machine StepOutcome
unfolding take_lengths roll_back
step_stored_align_and_len is_final = do
  snap ← gets (λ s. snapshot s.reader)
  enough ← gets (λ s. has_bits (residual_bit_count s.reader % 8 + 32) s)
  if not enough then roll_back snap (stored_align_and_len is_final) else do
    modify (λ (s : Machine). record s { reader = align_to_byte s.reader })
    λ s.
        (let (x, r) = read_bytes 4 s.reader in
          take_lengths snap is_final x (record s { reader = r }))

unfoldable pub step_stored_body : ℕ → Bool → Exec Machine StepOutcome
unfolding on_reader
step_stored_body remaining is_final =
    if remaining == 0
    then (if is_final then go_to finished done else go_to block_header progress)
    else do
      available ← gets (λ s. available_bits s.reader / 8)
      if available == 0 then go_to (stored_body remaining is_final) need_more_bytes else do
        bytes ← on_reader (read_bytes (min available remaining))
        modify (λ (s : Machine). record s { output = s.output ++ bytes })
        go_to (stored_body (remaining - min available remaining) is_final) progress

-- The counts of a dynamic block, with the test of `hdist`.
dynamic_counts : Bool → ℕ → ℕ → ℕ → Exec Machine StepOutcome
dynamic_counts is_final hlit hdist hclen =
    if ltb (length distance_table) hdist
    then raise (invalid_data (hdist_too_large hdist))
    else go_to (dynamic_bitwidth_table is_final hlit hdist hclen 0 (replicate 19 0)) progress

unfoldable pub step_dynamic_header : Bool → Exec Machine StepOutcome
unfolding dynamic_counts roll_back on_reader
step_dynamic_header is_final = do
  snap ← gets (λ s. snapshot s.reader)
  enough ← gets (has_bits 14)
  if not enough then roll_back snap (dynamic_header is_final) else do
    lit ← on_reader (read_bits 5)
    dist ← on_reader (read_bits 5)
    clen ← on_reader (read_bits 4)
    dynamic_counts is_final (lit + 257) (dist + 1) (u8 (u8 clen + 4))

-- The `while order_idx < hclen`, with `n` rounds left, and what stands behind it.
bitwidth_loop : Bool → ℕ → ℕ → ℕ → ℕ → ℕ → List ℕ → Exec Machine StepOutcome
unfolding roll_back on_reader
bitwidth_loop is_final hlit hdist hclen zero order_idx code_lengths = do
  bitwidth ← lift (from_code_lengths code_lengths (some 1) none)
  go_to (dynamic_code_lengths is_final hlit hdist bitwidth [] (hlit + hdist)) progress
bitwidth_loop is_final hlit hdist hclen (suc n) order_idx code_lengths = do
  snap ← gets (λ s. snapshot s.reader)
  enough ← gets (has_bits 3)
  let wait =
      roll_back snap (dynamic_bitwidth_table is_final hlit hdist hclen order_idx code_lengths)
  if not enough then wait else do
    width ← on_reader (read_bits 3)
    bitwidth_loop is_final hlit hdist hclen n (order_idx + 1)
        (set code_lengths (get_or bitwidth_code_order order_idx 0) (u8 width))

unfoldable pub step_dynamic_bitwidth_table :
    Bool → ℕ → ℕ → ℕ → ℕ → List ℕ → Exec Machine StepOutcome
unfolding bitwidth_loop
step_dynamic_bitwidth_table is_final hlit hdist hclen order_idx code_lengths =
    bitwidth_loop is_final hlit hdist hclen (hclen - order_idx) order_idx code_lengths

-- `last()`
abbrev pub last? : List ℕ → Option ℕ
last? [] = none
last? (x ∷ []) = some x
last? (x ∷ (y ∷ r)) = last? (y ∷ r)

module _ (is_final : Bool) (hlit hdist : ℕ) (bitwidth : HuffmanDecoder) (target_len : ℕ) where
  -- What the loop does when all code lengths are read.
  block_decoders : List ℕ → Exec Machine StepOutcome
  block_decoders all = do
    lit ← lift (from_code_lengths (slice all 0 hlit) none (some end_of_block))
    dist ← lift (from_code_lengths (slice all hlit (hlit + hdist)) (some lit.safely_peek_bits) none)
    go_to (symbol_loop is_final lit dist) progress

  abbrev here : List ℕ → DecodeState
  here all = dynamic_code_lengths is_final hlit hdist bitwidth all target_len

  -- The `match code` of a round; `again` is the rest of the loop.
  expand_code :
      ReaderState → List ℕ → (List ℕ → Exec Machine StepOutcome) → ℕ → Exec Machine StepOutcome
  unfolding or_roll_back roll_back on_reader
  expand_code snap all again code =
      let checked = λ (grown : List ℕ).
        if ltb target_len (length grown)
        then raise (invalid_data code_lengths_exceed_table)
        else again grown in
      if ltb code 16
      then checked (all ++ u8 code ∷ [])
      else if code == 16
      then or_roll_back (roll_back snap (here all)) (on_reader (read_bits 2)) (λ extra.
        elim (last? all) [
          | none ↦ raise (invalid_data repeat_without_previous)
          | some last ↦ checked (all ++ replicate (extra + 3) last)
        ])
      else if code == 17
      then or_roll_back (roll_back snap (here all)) (on_reader (read_bits 3))
          (λ extra. checked (all ++ replicate (extra + 3) 0))
      else if code == 18
      then or_roll_back (roll_back snap (here all)) (on_reader (read_bits 7))
          (λ extra. checked (all ++ replicate (extra + 11) 0))
      else raise (invalid_data (invalid_code_length_symbol code))

  -- The `while all_code_lengths.len() < target_len`. A round adds a length at least.
  code_lengths_loop : ℕ → List ℕ → Exec Machine StepOutcome
  unfolding expand_code block_decoders or_roll_back roll_back on_reader
  code_lengths_loop zero all s =
      if ltb (length all) target_len then (out_of_fuel, s) else block_decoders all s
  code_lengths_loop (suc fuel) all s =
      let round =
        (do
          snap ← gets (λ (t : Machine). snapshot t.reader)
          or_roll_back (roll_back snap (here all)) (on_reader (decode bitwidth))
              (expand_code snap all (code_lengths_loop fuel)))
          s in
      if ltb (length all) target_len then round else block_decoders all s

  unfoldable pub step_dynamic_code_lengths : List ℕ → Exec Machine StepOutcome
  unfolding code_lengths_loop
  step_dynamic_code_lengths all = code_lengths_loop (target_len - length all) all
