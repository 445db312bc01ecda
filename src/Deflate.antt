-- ===== src/Deflate.antt =====
-- src/deflate.rs: the one-shot functions.
pub mod Stored
pub mod Fixed
use noflate.Base.{
  ℕ, zero, suc, ◌+◌, ◌*◌, Bool, not, ◌&&◌, List, [], ◌++◌, length, ◌==◌, if◌then◌else◌,
}
use noflate.Error.{Result, out_of_fuel, invalid_data, deflate_ended_early}
use noflate.Exec.{Exec, ◌>>=◌, ◌>>◌, pure, raise, gets, update}
use noflate.Encode.Options
use noflate.Encode.Options.{EncodeOptions}
use noflate.Encode.Stream as Encode
use noflate.Encode.Stream.{Encoder}
use noflate.Decode.Stream as Decode
use noflate.Decode.Stream.{Decoder}

-- `output().to_vec()`, then `advance`.
pub take_encoded : Exec Encoder (List ℕ)
take_encoded = do out ← gets Encode.output; update (Encode.advance (length out)); pure out

-- `compress`, with the options left open.
unfoldable pub compress_with : EncodeOptions → List ℕ → Result (List ℕ)
unfolding take_encoded
compress_with options bytes =
    ((do Encode.feed bytes; Encode.finish; take_encoded) (Encode.with_options options)).0

unfoldable pub compress : List ℕ → Result (List ℕ)
unfolding compress_with
compress = compress_with (Options.buffer_all_input Options.new)

pub take_decoded : Exec Decoder (List ℕ)
take_decoded = do
  produced ← gets Decode.output
  update (Decode.advance (length produced))
  pure produced

-- An empty feed made no progress: the stream is truncated.
abbrev pub stalled : ℕ → Decoder → Bool
stalled before_remaining d =
    (length (Decode.output d) == 0)
    && ((length (Decode.remaining_input d) == before_remaining) && not (Decode.is_finished d))

-- The `loop` of `decompress`. A round takes a bit of the input at least, or is the last.
pub decompress_loop : ℕ → List ℕ → Exec Decoder (List ℕ)
unfolding take_decoded
decompress_loop zero out d = (out_of_fuel, d)
decompress_loop (suc fuel) out d =
    (do
      produced ← take_decoded
      let out' = out ++ produced
      ended ← gets Decode.is_finished
      if ended then pure out' else do
        before_remaining ← gets (λ d. length (Decode.remaining_input d))
        Decode.feed []
        stuck ← gets (stalled before_remaining)
        if stuck then raise (invalid_data deflate_ended_early) else decompress_loop fuel out')
      d

unfoldable pub decompress : List ℕ → Result (List ℕ)
unfolding decompress_loop
decompress bytes = ((do Decode.feed bytes; decompress_loop (8 * length bytes + 2) []) Decode.new).0
