-- ===== src/Encode/Options.antt =====
-- `EncodeOptions` of src/encode.rs.
use noflate.Base.{ℕ, ◌*◌, Option, none, some, ltb, if◌then◌else◌}
use noflate.Error.{Result, ok, panic}

pub data BlockKind : Type 0 where
  stored fixed dynamic : BlockKind

pub record EncodeOptions : Type 0 where
  pub block_kind : BlockKind
  pub max_block_input_bytes : Option ℕ

abbrev pub default_max_block_input : ℕ
default_max_block_input = 64 * 1024

unfoldable pub new : EncodeOptions
new = record { block_kind = dynamic; max_block_input_bytes = some default_max_block_input }

unfoldable pub fixed_huffman : EncodeOptions → EncodeOptions
fixed_huffman o = record o { block_kind = fixed }

unfoldable pub use_stored : EncodeOptions → EncodeOptions
use_stored o = record o { block_kind = stored }

unfoldable pub buffer_all_input : EncodeOptions → EncodeOptions
buffer_all_input o = record o { max_block_input_bytes = none }

-- The `assert!` panics at 0.
unfoldable pub with_max_block_input_bytes : ℕ → EncodeOptions → Result EncodeOptions
with_max_block_input_bytes n o =
    if ltb 0 n then ok (record o { max_block_input_bytes = some n }) else panic
