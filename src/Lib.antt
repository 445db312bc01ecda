-- ===== src/Lib.antt =====
-- noflate: a DEFLATE, zlib and gzip encoder and decoder in Rust, modelled function by function.
--
-- The crate has five layers, and the files follow them.
--   * Checksums: Adler32 is src/adler32.rs, Crc32 is src/crc32.rs.
--   * Bits and bytes: Bit is src/bit.rs (Bit.Reader is `BitReader`, Bit.Writer is `BitWriter`),
--     Buf is src/buf.rs.
--   * Codes: Symbol is src/symbol.rs, Huffman is src/huffman.rs (Codes for what both sides share,
--     Encoder, Decoder, and Lengths for `length_limited_code_lengths`), Lz77 is src/lz77.rs.
--   * Streams: Decode is src/decode.rs (State, Header and Body for the steps, Copy for
--     `copy_from_distance`, Stream for `Decoder`), Encode is src/encode.rs (Options, Blocks, Dynamic,
--     Stream for `Encoder`), Deflate is the two functions of src/deflate.rs.
--   * Containers: Zlib is src/zlib.rs, Gzip is src/gzip.rs, Format is `Format` of src/lib.rs.
-- The streams with stored blocks go through all layers: Encode.Stored is the layout of the blocks,
-- Encode.Stream.Session the calls on an encoder in any order, Encode.Stream.Wrapped an encoder inside
-- that of a container, Decode.Stream.StoredSteps, StoredRounds and StoredFeed the way of the decoder
-- over the blocks, StoredWaits, StoredPieces and the Pieces modules the same where they come in
-- pieces; Deflate.Stored, Zlib.RoundTrip and Gzip.RoundTrip put both sides together.
-- The codes go from Huffman.Digits (the digits of a code and of its reversal), Sorted, Built and
-- Prefix (what the assignment of the codes gives), Decoder.Slots and Decoder.Canonical (the slots of
-- the table) to Looks and RoundTrip (a decoder against an encoder of the same code lengths).
-- The streams with fixed codes use them: Lz77.Reach is how far back tokens reach, Encode.Symbols and
-- Encode.Fixed the layout of a block, Encode.Stream.Runs, Seen and FixedRun the encoder's calls,
-- Decode.Body.Tokens, Rounds, Outcomes and Block the symbol loop, Decode.Fixed the tables, the
-- Decode.Stream.Fixed modules the way of the decoder over the blocks, with its pauses and with
-- output that is taken and dropped, and Deflate.Fixed both sides together.
-- Error is src/error.rs. Base holds the shared notation and lemmas, Exec the methods on `&mut self`
-- that return `Result`; Examples, StreamExamples, StoredExamples, FixedExamples and
-- DecoderExamples are the runs at concrete inputs.
--
-- A struct is a record and an enum a data type with the names of the source. A function that only
-- reads is a function; a method that changes its object and may fail is an `Exec`: it takes the
-- object and gives the outcome with the object as the call left it, on errors too. The outcome is
-- `ok`, `err`, or `panic` for an `assert!`, an `unreachable!` or an index out of range. The text of
-- an error is a constructor of `Message`.
--
-- Numbers are natural numbers. u8, u16, u32 and u64 casts, shifts and `wrapping_add` are written
-- with their `% 2 ^ w`; usize is not bounded, and the match finder's positions, stored as u32, are
-- those of inputs below 4 GiB. Where a sum cannot pass its width the wrap-around is left out.
--
-- Loops whose end is not structural take fuel. The fuel is the number of bytes or bits that a round
-- uses up at least one of: `bit_count` for the rounds of the bit reader and writer, the length of
-- the data for the checksums, the chunks of the encoder and the copy, the unread bits for the
-- symbols and the steps of the decoder. A loop of the decoders that ran out of it would give
-- `out_of_fuel`, which is no outcome of the program.
--
-- Streams of stored blocks are those whose padding bits are zeros, as the encoder writes them.
--
-- Not modelled: capacities and reuse of allocations, `Display` and `Debug`, what a failed write of
-- a block has put out (no write fails), and the tests, fuzz targets, benchmarks and examples.
pub mod Base
pub mod Error
pub mod Exec
pub mod Bit
pub mod Adler32
pub mod Crc32
pub mod Buf
pub mod Symbol
pub mod Huffman
pub mod Lz77
pub mod Decode
pub mod Encode
pub mod Deflate
pub mod Zlib
pub mod Gzip
pub mod Format
pub mod Examples
pub mod StreamExamples
pub mod StoredExamples
pub mod DecoderExamples
pub mod FixedExamples
