-- ===== src/Gzip/Decoder.antt =====
-- `Decoder` of src/gzip.rs, and the one-shot `decompress`.
pub mod Trailer
pub mod Whole
use noflate.Base.{
  ℕ, zero, suc, ◌+◌, ◌*◌, min, Bool, true, false, not, List, [], ◌∷◌, length, get_or, set, take,
  ltb, ◌==◌, if◌then◌else◌, replicate, u32,
}
use noflate.Error.{
  Result, ok, err, panic, out_of_fuel, invalid_data, gzip_crc_mismatch, gzip_isize_mismatch,
  fed_after_gzip_end, gzip_ended_early,
}
use noflate.Error
use noflate.Exec.{Exec, ◌>>=◌, ◌>>◌, pure, raise, modify, gets, update, on_part}
use noflate.Crc32
use noflate.Crc32.{Crc32}
use noflate.Buf
use noflate.Buf.{Buf}
use noflate.Decode.Stream as Deflate
use noflate.Deflate.{stalled}
use noflate.Gzip.Header.{State, body, trailer, done, header_round}
use noflate.Gzip.Header

pub record Decoder : Type 0 where
  pub header : Header.Header
  pub open header use {state}
  pub deflate : Deflate.Decoder
  pub crc : Crc32
  pub size : ℕ
  pub trailer_bytes : List ℕ
  pub trailer_filled : ℕ
  pub finished : Bool
  pub output : Buf

unfoldable pub new : Decoder
unfolding Header.new
new = record {
  header = Header.new;
  deflate = Deflate.new;
  crc = Crc32.new;
  size = 0;
  trailer_bytes = replicate 8 0;
  trailer_filled = 0;
  finished = false;
  output = Buf.new;
}

unfoldable pub output : Decoder → List ℕ
output d = Buf.get d.output

unfoldable pub advance : ℕ → Decoder → Result Decoder
advance n d = Error.◌>>=◌ (Buf.advance n d.output) (λ b. ok (record d { output = b }))

unfoldable pub is_finished : Decoder → Bool
is_finished d = d.finished

abbrev pub set_state : State → Decoder → Decoder
set_state s d = record d { header = record d.header { state = s } }

-- `u32::from_le_bytes` of the four bytes from `i` on.
abbrev pub le_word : List ℕ → ℕ → ℕ
le_word xs i =
    get_or xs i 0
    + get_or xs (i + 1) 0 * 256
    + get_or xs (i + 2) 0 * 65536
    + get_or xs (i + 3) 0 * 16777216

-- The test of the trailer, once it has its eight bytes.
pub check_trailer : Exec Decoder (Unit {0})
check_trailer d =
    if d.trailer_filled == 8
    then (if not (le_word d.trailer_bytes 0 == Crc32.value d.crc)
        then (err (invalid_data gzip_crc_mismatch), d)
        else if not (le_word d.trailer_bytes 4 == d.size)
        then (err (invalid_data gzip_isize_mismatch), d)
        else (ok tt, record (set_state done d) { finished = true }))
    else (ok tt, d)

-- A write past the eight bytes of the trailer panics.
unfoldable pub feed_trailer_byte : ℕ → Exec Decoder (Unit {0})
unfolding check_trailer
feed_trailer_byte byte d =
    if ltb d.trailer_filled 8
    then check_trailer (record d {
      trailer_bytes = set d.trailer_bytes d.trailer_filled byte;
      trailer_filled = d.trailer_filled + 1;
    })
    else (panic, d)

pub feed_trailer_bytes : List ℕ → Exec Decoder (Unit {0})
feed_trailer_bytes [] d = (ok tt, d)
feed_trailer_bytes (byte ∷ bytes) d = (do feed_trailer_byte byte; feed_trailer_bytes bytes) d

unfoldable pub consume_deflate_tail : Exec Decoder (Unit {0})
unfolding feed_trailer_bytes
consume_deflate_tail d =
    let tail = Deflate.remaining_input d.deflate in
    (do
      feed_trailer_bytes (take (min (length tail) 8) tail)
      if ltb 8 (length tail) then raise (invalid_data fed_after_gzip_end) else pure tt)
      d

abbrev pub on_deflate {ℓ} : {A : Type ℓ} → Exec Deflate.Decoder A → Exec Decoder A
on_deflate = on_part (λ (d : Decoder). d.deflate) (λ x d. record d { deflate = x })

-- The output of the inner stream goes to the checksum, to the size and to the output.
pub take_body : Exec Decoder (Unit {0})
take_body d =
    let new_bytes = Deflate.output d.deflate in
    on_deflate (update (Deflate.advance (length new_bytes))) (record d {
      crc = Crc32.update new_bytes d.crc;
      size = u32 (d.size + u32 (length new_bytes));
      output = Buf.feed new_bytes d.output;
    })

-- The `loop` of the body. A round takes a bit of the inner stream at least, or is the last.
pub drain : ℕ → Exec Decoder (Unit {0})
unfolding take_body
drain zero d = (out_of_fuel, d)
drain (suc fuel) d =
    (do
      take_body
      ended ← gets (λ (d : Decoder). Deflate.is_finished d.deflate)
      if ended then (do modify (set_state trailer); consume_deflate_tail) else do
        before_remaining ← gets (λ (d : Decoder). length (Deflate.remaining_input d.deflate))
        on_deflate (Deflate.feed [])
        stuck ← gets (λ (d : Decoder). stalled before_remaining d.deflate)
        if stuck then pure tt else drain fuel)
      d

-- The bits that the inner stream has not read.
abbrev unread_bits : Decoder → ℕ
unread_bits d = d.deflate.pending_bit_count + 8 * length (Deflate.remaining_input d.deflate)

-- `while i < data.len() && self.trailer_filled < 8`
trailer_loop : List ℕ → Exec Decoder (List ℕ)
trailer_loop [] d = (ok [], d)
trailer_loop (byte ∷ rest) d =
    if ltb d.trailer_filled 8
    then (do feed_trailer_byte byte; trailer_loop rest) d
    else (ok (byte ∷ rest), d)

-- A round of the loop of `feed`, by the state; the result is the rest of the input.
pub feed_round : State → List ℕ → Exec Decoder (List ℕ)
unfolding drain trailer_loop
feed_round body rest d =
    (do on_deflate (Deflate.feed rest); λ d. drain (unread_bits d + 2) d; pure []) d
feed_round trailer rest d = trailer_loop rest d
feed_round done rest d = (err (invalid_data fed_after_gzip_end), d)
feed_round state rest d =
    on_part (λ (d : Decoder). d.header) (λ h d. record d { header = h }) (header_round state rest) d

-- The `while i < data.len()`. A round takes a byte, but for one of `extra_len` with no bytes left.
pub feed_loop : ℕ → List ℕ → Exec Decoder (Unit {0})
unfolding feed_round
feed_loop fuel [] d = (ok tt, d)
feed_loop zero (byte ∷ rest) d = (out_of_fuel, d)
feed_loop (suc fuel) (byte ∷ rest) d =
    (do rest' ← feed_round d.state (byte ∷ rest); feed_loop fuel rest') d

unfoldable pub feed : List ℕ → Exec Decoder (Unit {0})
unfolding feed_loop
feed bytes = feed_loop (length bytes + 2) bytes

unfoldable pub decompress : List ℕ → Result (List ℕ)
decompress bytes =
    ((do
      feed bytes
      complete ← gets is_finished
      if not complete
          then raise (invalid_data gzip_ended_early)
          else do out ← gets output; update (advance (length out)); pure out)
      new).0
