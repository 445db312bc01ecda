-- ===== src/Error.antt =====
-- `Error` and `Result` of src/error.rs. The text of a message is a constructor of `Message`, one
-- for each literal or `format!` in the crate, so two errors are equal when their texts are.
use noflate.Base.{ℕ}

pub data Message : Type 0 where
  -- bit.rs
  unexpected_end : Message
  -- huffman.rs
  code_length_exceeds_15 table_is_empty too_many_bits conflicting_codes : Message
  invalid_coded_stream : Message
  -- decode.rs
  fed_after_deflate_end reserved_block_type repeat_without_previous : Message
  code_lengths_exceed_table : Message
  nlen_mismatch : ℕ → ℕ → Message
  hdist_too_large invalid_code_length_symbol invalid_distance_symbol : ℕ → Message
  forbidden_literal_symbol : ℕ → Message
  too_long_backward_reference : ℕ → ℕ → Message
  -- deflate.rs
  deflate_ended_early : Message
  -- encode.rs
  fed_after_encoder_finish sync_flush_after_finish : Message
  -- zlib.rs
  zlib_adler_mismatch fed_after_zlib_end zlib_preset_dictionary zlib_fcheck : Message
  zlib_method zlib_window : ℕ → Message
  fed_after_zlib_finish zlib_ended_early : Message
  -- gzip.rs
  fed_after_gzip_end gzip_magic gzip_crc_mismatch gzip_isize_mismatch : Message
  gzip_method : ℕ → Message
  fed_after_gzip_finish gzip_ended_early : Message

pub data Error : Type 0 where
  invalid_data : Message → Error
  unsupported : Message → Error

-- What a call gives: `core::result::Result`, or a panic (an `assert!`, an `unreachable!`, an index
-- out of range). `out_of_fuel` is no value of the program: a loop of the model ran out of rounds.
pub data Result {ℓ} (A : Type ℓ) : Type ℓ where
  ok : A → Result A
  err : Error → Result A
  panic : Result A
  out_of_fuel : Result A

infixl 5 ◌>>=◌
abbrev pub ◌>>=◌ {ℓ κ} : {A : Type ℓ} {B : Type κ} → Result A → (A → Result B) → Result B
ok a >>= f = f a
err e >>= f = err e
panic >>= f = panic
out_of_fuel >>= f = out_of_fuel
