-- ===== src/Zlib/Decoder.antt =====
-- `Decoder` of src/zlib.rs, and the one-shot `decompress`.
pub mod Whole
use noflate.Base.{
  ℕ, zero, suc, ◌+◌, ◌-◌, ◌*◌, min, Bool, true, false, not, List, [], ◌∷◌, length, get_or, set,
  take, drop, ltb, ◌==◌, if◌then◌else◌, replicate, u8,
}
use noflate.Error.{
  Result, ok, err, panic, out_of_fuel, invalid_data, zlib_adler_mismatch, fed_after_zlib_end,
  zlib_ended_early,
}
use noflate.Error
use noflate.Exec.{Exec, ◌>>=◌, ◌>>◌, pure, raise, modify, gets, update, on_part}
use noflate.Adler32
use noflate.Adler32.{Adler32}
use noflate.Buf
use noflate.Buf.{Buf}
use noflate.Decode.Stream as Deflate
use noflate.Deflate.{stalled}
use noflate.Zlib.Header.{validate_zlib_header}

pub data State : Type 0 where
  header body trailer done : State

pub record Decoder : Type 0 where
  pub state : State
  pub header_bytes : List ℕ
  pub header_filled : ℕ
  pub deflate : Deflate.Decoder
  pub adler : Adler32
  pub trailer_bytes : List ℕ
  pub trailer_filled : ℕ
  pub finished : Bool
  pub output : Buf

unfoldable pub new : Decoder
new = record {
  state = header;
  header_bytes = replicate 2 0;
  header_filled = 0;
  deflate = Deflate.new;
  adler = Adler32.new;
  trailer_bytes = replicate 4 0;
  trailer_filled = 0;
  finished = false;
  output = Buf.new;
}

unfoldable pub output : Decoder → List ℕ
output d = Buf.get d.output

unfoldable pub advance : ℕ → Decoder → Result Decoder
advance n d = Error.◌>>=◌ (Buf.advance n d.output) (λ b. ok (record d { output = b }))

unfoldable pub is_finished : Decoder → Bool
is_finished d = d.finished

-- `xs[at..at + ys.len()].copy_from_slice(ys)`
abbrev pub copy_into : List ℕ → ℕ → List ℕ → List ℕ
copy_into xs at [] = xs
copy_into xs at (y ∷ ys) = copy_into (set xs at y) (at + 1) ys

-- `u32::from_be_bytes`
abbrev pub be_word : List ℕ → ℕ
be_word xs = get_or xs 0 0 * 16777216 + get_or xs 1 0 * 65536 + get_or xs 2 0 * 256 + get_or xs 3 0

-- The test of the trailer, once it has its four bytes.
pub check_trailer : Exec Decoder (Unit {0})
check_trailer d =
    if d.trailer_filled == 4
    then (if be_word d.trailer_bytes == Adler32.value d.adler
        then (ok tt, record d { state = done; finished = true })
        else (err (invalid_data zlib_adler_mismatch), d))
    else (ok tt, d)

-- The `match self.state` of `feed_byte_in_trailer`.
pub byte_in : State → ℕ → Exec Decoder (Unit {0})
unfolding check_trailer
byte_in trailer byte d = check_trailer (record d {
  trailer_bytes = set d.trailer_bytes d.trailer_filled byte;
  trailer_filled = d.trailer_filled + 1;
})
byte_in done byte d = (err (invalid_data fed_after_zlib_end), d)
byte_in header byte d = (panic, d)
byte_in body byte d = (panic, d)

unfoldable pub feed_byte_in_trailer : ℕ → Exec Decoder (Unit {0})
unfolding byte_in
feed_byte_in_trailer byte d = byte_in d.state byte d

pub feed_trailer_bytes : List ℕ → Exec Decoder (Unit {0})
feed_trailer_bytes [] d = (ok tt, d)
feed_trailer_bytes (byte ∷ bytes) d = (do feed_byte_in_trailer byte; feed_trailer_bytes bytes) d

unfoldable pub consume_deflate_tail : Exec Decoder (Unit {0})
unfolding feed_trailer_bytes
consume_deflate_tail d =
    let tail = Deflate.remaining_input d.deflate in
    (do
      feed_trailer_bytes (take (min (length tail) 4) tail)
      if ltb 4 (length tail) then raise (invalid_data fed_after_zlib_end) else pure tt)
      d

abbrev pub on_deflate {ℓ} : {A : Type ℓ} → Exec Deflate.Decoder A → Exec Decoder A
on_deflate = on_part (λ (d : Decoder). d.deflate) (λ x d. record d { deflate = x })

-- The output of the inner stream goes to the checksum and to the output.
pub take_body : Exec Decoder (Unit {0})
take_body d =
    let new_bytes = Deflate.output d.deflate in
    on_deflate (update (Deflate.advance (length new_bytes)))
      (record d { adler = Adler32.update new_bytes d.adler; output = Buf.feed new_bytes d.output })

-- The `loop` of the body. A round takes a bit of the inner stream at least, or is the last.
pub drain : ℕ → Exec Decoder (Unit {0})
unfolding take_body
drain zero d = (out_of_fuel, d)
drain (suc fuel) d =
    (do
      take_body
      ended ← gets (λ (d : Decoder). Deflate.is_finished d.deflate)
      if ended
          then (do modify (λ (d : Decoder). record d { state = trailer }); consume_deflate_tail)
          else do
            before_remaining ← gets (λ (d : Decoder). length (Deflate.remaining_input d.deflate))
            on_deflate (Deflate.feed [])
            stuck ← gets (λ (d : Decoder). stalled before_remaining d.deflate)
            if stuck then pure tt else drain fuel)
      d

-- The bits that the inner stream has not read.
abbrev unread_bits : Decoder → ℕ
unread_bits d = d.deflate.pending_bit_count + 8 * length (Deflate.remaining_input d.deflate)

-- A round of the loop of `feed`, by the state; the result is `rest`.
pub feed_round : State → List ℕ → Exec Decoder (List ℕ)
unfolding drain check_trailer
feed_round header rest d =
    let taken = min (2 - d.header_filled) (length rest) in
    let d' = record d {
      header_bytes = copy_into d.header_bytes d.header_filled (take taken rest);
      header_filled = u8 (d.header_filled + taken);
    } in
    if d'.header_filled == 2
    then (do
      λ s. (validate_zlib_header d'.header_bytes, s)
      modify (λ (d : Decoder). record d { state = body })
      pure (drop taken rest))
        d'
    else (ok (drop taken rest), d')
feed_round body rest d =
    (do on_deflate (Deflate.feed rest); λ d. drain (unread_bits d + 2) d; pure []) d
feed_round trailer rest d =
    let taken = min (4 - d.trailer_filled) (length rest) in
    (do
      modify (λ (d : Decoder). record d {
        trailer_bytes = copy_into d.trailer_bytes d.trailer_filled (take taken rest);
        trailer_filled = u8 (d.trailer_filled + taken);
      })
      check_trailer
      pure (drop taken rest))
      d
feed_round done rest d = (err (invalid_data fed_after_zlib_end), d)

-- The `while !rest.is_empty()`. A round takes a byte at least.
pub feed_loop : ℕ → List ℕ → Exec Decoder (Unit {0})
unfolding feed_round
feed_loop fuel [] d = (ok tt, d)
feed_loop zero (byte ∷ rest) d = (out_of_fuel, d)
feed_loop (suc fuel) (byte ∷ rest) d =
    (do rest' ← feed_round d.state (byte ∷ rest); feed_loop fuel rest') d

unfoldable pub feed : List ℕ → Exec Decoder (Unit {0})
unfolding feed_loop
feed bytes = feed_loop (length bytes) bytes

unfoldable pub decompress : List ℕ → Result (List ℕ)
decompress bytes =
    ((do
      feed bytes
      complete ← gets is_finished
      if not complete
          then raise (invalid_data zlib_ended_early)
          else do out ← gets output; update (advance (length out)); pure out)
      new).0
