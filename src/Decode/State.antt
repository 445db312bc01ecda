-- ===== src/Decode/State.antt =====
-- The state of the machine of src/decode.rs, and how a step waits for more bytes.
use noflate.Base.{ℕ, Bool, true, false, List}
use noflate.Error.{Error, Message, Result, ok, err, panic, out_of_fuel, invalid_data}
use noflate.Exec.{Exec, ◌>>◌, pure, modify}
use noflate.Bit.Reader.{Reader, ReaderState, restore}
use noflate.Huffman.Decoder.{HuffmanDecoder}

pub data DecodeState : Type 0 where
  block_header : DecodeState
  stored_align_and_len : Bool → DecodeState
  -- remaining, is_final
  stored_body : ℕ → Bool → DecodeState
  dynamic_header : Bool → DecodeState
  -- is_final, hlit, hdist, hclen, order_idx, code_lengths
  dynamic_bitwidth_table : Bool → ℕ → ℕ → ℕ → ℕ → List ℕ → DecodeState
  -- is_final, hlit, hdist, bitwidth_decoder, all_code_lengths, target_len
  dynamic_code_lengths : Bool → ℕ → ℕ → HuffmanDecoder → List ℕ → ℕ → DecodeState
  -- is_final, literal, distance
  symbol_loop : Bool → HuffmanDecoder → HuffmanDecoder → DecodeState
  finished : DecodeState
  transient : DecodeState

pub data StepOutcome : Type 0 where
  progress need_more_bytes yield done : StepOutcome

-- What a step works on: its `&mut` arguments.
pub record Machine : Type 0 where
  pub reader : Reader
  pub state : DecodeState
  pub output : List ℕ

unfoldable pub is_eof_error : Error → Bool
is_eof_error (invalid_data Message.unexpected_end) = true
is_eof_error _ = false

-- A call of the reader.
unfoldable pub on_reader {ℓ} : {A : Type ℓ} → Exec Reader A → Exec Machine A
on_reader m s = let (x, r) = m s.reader in (x, record s { reader = r })

abbrev pub set_state : DecodeState → Exec Machine (Unit {0})
set_state state = modify (λ (s : Machine). record s { state = state })

-- `*state = …; return Ok(outcome)`
abbrev pub go_to : DecodeState → StepOutcome → Exec Machine StepOutcome
go_to state outcome = do set_state state; pure outcome

-- `reader.restore(snap); *state = …; return Ok(NeedMoreBytes)`
unfoldable pub roll_back : ReaderState → DecodeState → Exec Machine StepOutcome
roll_back snap state = do
  modify (λ (s : Machine). record s { reader = restore snap s.reader })
  go_to state need_more_bytes

-- `match m { Ok(v) => v, Err(e) if is_eof_error(&e) => { roll back }, Err(e) => return Err(e) }`
-- before the rest of a step.
unfoldable pub or_roll_back {ℓ} :
    {A : Type ℓ}
    → Exec Machine StepOutcome
    → Exec Machine A
    → (A → Exec Machine StepOutcome)
    → Exec Machine StepOutcome
unfolding is_eof_error
or_roll_back {A} wait m rest s = let (x, s') = m s in outcome x s'
  where
    outcome : Result A → Exec Machine StepOutcome
    outcome (ok a) s' = rest a s'
    outcome (err e) s' = elim (is_eof_error e) [ true ↦ wait s' | false ↦ (err e, s') ]
    outcome panic s' = (panic, s')
    outcome out_of_fuel s' = (out_of_fuel, s')
