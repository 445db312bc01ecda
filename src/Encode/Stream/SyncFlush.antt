-- ===== src/Encode/Stream/SyncFlush.antt =====
-- What `Encoder::sync_flush` of src/encode.rs puts out.
use noflate.Base.{ℕ, ◌<◌, ◌≡◌, false, List, [], ◌∷◌, ◌++◌, replicate, IsBytes}
use noflate.Error.{ok}
use noflate.Bit.View.{byte_bits}
use noflate.Bit.Writer
use noflate.Bit.Writer.{Writer}
use noflate.Bit.Writes.{written, IsFlushed}
use noflate.Lz77.{Lz77Code, fill_symbols}
use noflate.Encode.Options.{stored, fixed, dynamic}
use noflate.Encode.Dynamic.{emit_dynamic}
use noflate.Encode.Symbols.{BlockDigits}
use noflate.Encode.Fixed.{fixed_header, IsChunk}
use noflate.Encode.Stored.{aligned, IsBlocks}
use noflate.Decode.Fixed.{FixedTables}
use noflate.Encode.Stream.{Encoder, writer}

-- The digits of an empty stored block that is not the last: its flag and its type, the padding of the
-- byte, and 00 00 FF FF.
abbrev pub marker : ℕ → List ℕ
marker pad = 0 ∷ 0 ∷ 0 ∷ (replicate pad 0 ++ byte_bits (0 ∷ 0 ∷ 255 ∷ 255 ∷ []))

record IsMarked (w w' : Writer) : Type 0 where
  pad : ℕ
  few : pad < 8
  put : written w' ≡ written w ++ marker pad
  no_buffer : w'.bit_buffer ≡ 0
  no_bits : w'.bit_count ≡ 0

module _ (f : FixedTables) (e : Encoder) where
  -- What the flush asks of an encoder: nothing where no input is pending; with stored blocks, a byte
  -- boundary; with fixed codes, input that is bytes; with dynamic codes, that the block can be made.
  pub data CanFlush : Type 0 where
    nothing : e.input ≡ [] → CanFlush
    as_stored : e.options.block_kind ≡ stored → e.bit_buffer ≡ 0 → e.bit_count ≡ 0 → CanFlush
    as_fixed : e.options.block_kind ≡ fixed → IsBytes e.input → CanFlush
    as_dynamic :
        e.options.block_kind ≡ dynamic
        → (w : Writer) → emit_dynamic false (fill_symbols e.input e.matcher).0 (writer e) ≡ ok w
        → IsFlushed w
        → CanFlush

  -- The writer behind the pending input, which is put out in blocks of the encoder's kind, none of
  -- them the last.
  pub data PutsPending (w : Writer) : Type 0 where
    no_block : e.input ≡ [] → w ≡ writer e → PutsPending w
    stored_blocks :
        e.options.block_kind ≡ stored
        → (encoded : List ℕ) → IsBlocks e.input encoded
        → w ≡ aligned (e.output ++ encoded)
        → PutsPending w
    fixed_block :
        e.options.block_kind ≡ fixed
        → (ts : List Lz77Code) (digits : List ℕ) → ((past : List ℕ) → IsChunk past ts e.input)
        → BlockDigits f.lit f.dist ts digits
        → written w ≡ written (writer e) ++ (fixed_header false ++ digits)
        → PutsPending w
    dynamic_block :
        e.options.block_kind ≡ dynamic
        → emit_dynamic false (fill_symbols e.input e.matcher).0 (writer e) ≡ ok w
        → PutsPending w

  -- The pending input is put out, then the marker, and no input and no bits are left.
  pub record IsSynced (e' : Encoder) : Type 0 where
    pub behind : Writer
    pub pending : PutsPending behind
    pub pad : ℕ
    pub few : pad < 8
    pub put : written (writer e') ≡ written behind ++ marker pad
    pub no_buffer : e'.bit_buffer ≡ 0
    pub no_bits : e'.bit_count ≡ 0
    pub no_input : e'.input ≡ []
    pub running : e'.finishing ≡ false
