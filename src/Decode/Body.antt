-- ===== src/Decode/Body.antt =====
-- The symbols of a block in src/decode.rs, and the choice of the step.
pub mod Tokens
pub mod Rounds
pub mod Outcomes
pub mod Block
use noflate.Base.{
  ℕ, zero, suc, ◌+◌, ◌-◌, ◌*◌, Bool, not, Option, none, some, List, [], ◌∷◌, ◌++◌, length,
  get_elem?, leb, ltb, ◌==◌, if◌then◌else◌, u8, u16,
}
use noflate.Error.{
  Result, ok, err, panic, out_of_fuel, invalid_data, invalid_distance_symbol,
  forbidden_literal_symbol,
}
use noflate.Exec.{Exec, ◌>>◌, pure, raise, modify}
use noflate.Symbol.{end_of_block, length_table, distance_table}
use noflate.Bit.Reader.{ReaderState, snapshot, available_bits, read_bits}
use noflate.Huffman.Decoder.{HuffmanDecoder, decode}
use noflate.Decode.Copy.{copy_from_distance}
use noflate.Decode.State.{
  DecodeState, StepOutcome, Machine, on_reader, go_to, roll_back, or_roll_back, block_header,
  stored_align_and_len, stored_body, dynamic_header, dynamic_bitwidth_table, dynamic_code_lengths,
  symbol_loop, finished, transient, progress, yield, done,
}
use noflate.Decode.Header.{
  has_bits, step_block_header, step_stored_align_and_len, step_stored_body, step_dynamic_header,
  step_dynamic_bitwidth_table, step_dynamic_code_lengths,
}

abbrev pub max_internal_buffer : ℕ
max_internal_buffer = 64 * 1024

-- `if extra_bits == 0 { 0 } else { reader.read_bits(extra_bits) }`
abbrev pub extra : ℕ → Exec Machine ℕ
extra n = if n == 0 then pure 0 else on_reader (read_bits n)

-- `copy_from_distance(output, …)?`
copy : ℕ → ℕ → Exec Machine (Unit {0})
copy distance len s = let r = copy_from_distance distance len s.output in copied r s
  where
    copied : Result (List ℕ) → Exec Machine (Unit {0})
    copied (ok output) s = (ok tt, record s { output = output })
    copied (err e) s = (err e, s)
    copied panic s = (panic, s)
    copied out_of_fuel s = (out_of_fuel, s)

module _ (drained : ℕ) (is_final : Bool) (lit dist : HuffmanDecoder) where
  abbrev here : DecodeState
  here = symbol_loop is_final lit dist

  -- A back-reference whose length symbol has the table entry given.
  back_reference :
      ReaderState → Exec Machine StepOutcome → Option (ℕ × ℕ) → Exec Machine StepOutcome
  unfolding or_roll_back roll_back on_reader copy
  back_reference snap again none = λ s. (panic, s)
  back_reference snap again (some (base_length, length_extra_bits)) =
      let wait = roll_back snap here in
      or_roll_back wait (extra length_extra_bits) λ length_extra.
        or_roll_back wait (on_reader (decode dist)) λ distance_symbol.
          elim (get_elem? distance_table distance_symbol) [
            | none ↦ raise (invalid_data (invalid_distance_symbol distance_symbol))
            | some (base_distance, dist_extra_bits) ↦
                or_roll_back wait (extra dist_extra_bits) λ dist_extra. (do
                  copy (u16 (base_distance + dist_extra)) (u16 (base_length + length_extra))
                  again)
          ]

  -- The `match symbol` of a round; `again` is the rest of the loop.
  pub use_symbol : ReaderState → Exec Machine StepOutcome → ℕ → Exec Machine StepOutcome
  unfolding back_reference
  use_symbol snap again symbol =
      if ltb symbol 256
      then (do modify (λ (s : Machine). record s { output = s.output ++ u8 symbol ∷ [] }); again)
      else if symbol == end_of_block
      then (if is_final then go_to finished done else go_to block_header progress)
      else if ltb symbol 286
      then back_reference snap again (get_elem? length_table (symbol - 257))
      else if ltb symbol 288
      then raise (invalid_data (forbidden_literal_symbol symbol))
      else (λ s. (panic, s))

  -- The `loop`. A round takes a bit of the stream at least.
  pub symbol_rounds : ℕ → Exec Machine StepOutcome
  unfolding use_symbol or_roll_back roll_back on_reader
  symbol_rounds zero s = (out_of_fuel, s)
  symbol_rounds (suc fuel) s =
      let snap = snapshot s.reader in
      let round =
        or_roll_back (roll_back snap here) (on_reader (decode lit))
          (use_symbol snap (symbol_rounds fuel)) s in
      if leb max_internal_buffer (length s.output - drained)
      then go_to here yield s
      else if not (has_bits lit.safely_peek_bits s)
      then roll_back snap here s
      else round

  unfoldable pub step_symbol_loop : Exec Machine StepOutcome
  unfolding symbol_rounds
  step_symbol_loop s = symbol_rounds (available_bits s.reader + 1) s

-- The `match current` of `step`, with the state already replaced.
step_from : ℕ → DecodeState → Exec Machine StepOutcome
step_from drained block_header = step_block_header
step_from drained (stored_align_and_len is_final) = step_stored_align_and_len is_final
step_from drained (stored_body remaining is_final) = step_stored_body remaining is_final
step_from drained (dynamic_header is_final) = step_dynamic_header is_final
step_from drained (dynamic_bitwidth_table is_final hlit hdist hclen order_idx code_lengths) =
    step_dynamic_bitwidth_table is_final hlit hdist hclen order_idx code_lengths
step_from drained (dynamic_code_lengths is_final hlit hdist bitwidth all target_len) =
    step_dynamic_code_lengths is_final hlit hdist bitwidth target_len all
step_from drained (symbol_loop is_final lit dist) = step_symbol_loop drained is_final lit dist
step_from drained finished = go_to finished done
step_from drained transient = λ s. (panic, s)

unfoldable pub step : ℕ → Exec Machine StepOutcome
unfolding step_from
step drained s = step_from drained s.state (record s { state = transient })
