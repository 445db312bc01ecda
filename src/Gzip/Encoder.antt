-- ===== src/Gzip/Encoder.antt =====
-- `Encoder` of src/gzip.rs, and the one-shot `compress`.
pub mod Run
use noflate.Base.{
  ℕ, ◌+◌, ◌-◌, ◌*◌, Bool, true, false, ◌&&◌, List, [], ◌∷◌, ◌++◌, length, drop, leb, ltb, ◌==◌,
  if◌then◌else◌, le_bytes_32, u32,
}
use noflate.Error.{Result, ok, err, panic, invalid_data, fed_after_gzip_finish}
use noflate.Exec.{Exec, ◌>>=◌, ◌>>◌, pure, modify, gets, update, on_part}
use noflate.Crc32
use noflate.Crc32.{Crc32}
use noflate.Encode.Options
use noflate.Encode.Options.{EncodeOptions}
use noflate.Encode.Stream as Deflate
use noflate.Gzip.Header.{magic1, magic2, method_deflate}

pub record Encoder : Type 0 where
  pub deflate : Deflate.Encoder
  pub crc : Crc32
  pub output : List ℕ
  pub drained : ℕ
  pub header_emitted : Bool
  pub finishing : Bool
  pub size : ℕ

abbrev pub compact_threshold : ℕ
compact_threshold = 1024 * 1024

unfoldable pub with_options : EncodeOptions → Encoder
with_options options = record {
  deflate = Deflate.with_options options;
  crc = Crc32.new;
  output = [];
  drained = 0;
  header_emitted = false;
  finishing = false;
  size = 0;
}

unfoldable pub new : Encoder
unfolding with_options
new = with_options Options.new

-- Magic, method, no flags, no time, no extra flags, unknown system.
abbrev pub header_bytes : List ℕ
header_bytes = magic1 ∷ magic2 ∷ method_deflate ∷ 0 ∷ 0 ∷ 0 ∷ 0 ∷ 0 ∷ 0 ∷ 255 ∷ []

-- The header goes out before anything else, once.
pub ensure_header : Encoder → Encoder
ensure_header e =
    if e.header_emitted
    then e
    else record e { output = e.output ++ header_bytes; header_emitted = true }

abbrev pub on_deflate {ℓ} : {A : Type ℓ} → Exec Deflate.Encoder A → Exec Encoder A
on_deflate = on_part (λ (e : Encoder). e.deflate) (λ x e. record e { deflate = x })

-- What the inner encoder has put out is moved to the output.
pub take_deflate : Exec Encoder (Unit {0})
take_deflate e =
    let produced = Deflate.output e.deflate in
    on_deflate (update (Deflate.advance (length produced)))
      (record e { output = e.output ++ produced })

unfoldable pub feed : List ℕ → Exec Encoder (Unit {0})
unfolding ensure_header take_deflate
feed bytes e =
    if e.finishing
    then (err (invalid_data fed_after_gzip_finish), e)
    else (do
      modify ensure_header
      modify (λ (e : Encoder). record e {
        crc = Crc32.update bytes e.crc;
        size = u32 (e.size + u32 (length bytes));
      })
      on_deflate (Deflate.feed bytes)
      λ e. (if ltb 0 (length (Deflate.output e.deflate)) then take_deflate e else (ok tt, e)))
        e

unfoldable pub finish : Exec Encoder (Unit {0})
unfolding ensure_header take_deflate
finish e =
    if e.finishing
    then (ok tt, e)
    else (do
      modify ensure_header
      on_deflate Deflate.finish
      take_deflate
      modify (λ (e : Encoder). record e {
        output = e.output ++ (le_bytes_32 (Crc32.value e.crc) ++ le_bytes_32 e.size);
        finishing = true;
      }))
        e

unfoldable pub output : Encoder → List ℕ
output e = drop e.drained e.output

unfoldable pub is_finished : Encoder → Bool
is_finished e = e.finishing && (e.drained == length e.output)

-- The `assert!` panics before anything changes.
unfoldable pub advance : ℕ → Encoder → Result Encoder
advance n e =
    if leb n (length e.output - e.drained)
    then ok (
        if leb compact_threshold (e.drained + n)
        then record e { output = drop (e.drained + n) e.output; drained = 0 }
        else record e { drained = e.drained + n })
    else panic

-- `compress`, with the options left open.
unfoldable pub compress_with : EncodeOptions → List ℕ → Result (List ℕ)
compress_with options bytes =
    ((do feed bytes; finish; out ← gets output; update (advance (length out)); pure out)
      (with_options options)).0

unfoldable pub compress : List ℕ → Result (List ℕ)
unfolding compress_with
compress = compress_with (Options.buffer_all_input Options.new)
