-- ===== src/Gzip/Header.antt =====
-- The constants of src/gzip.rs, the states of the decoder, and the way through its header.
use noflate.Base.{
  ℕ, ◌+◌, ◌-◌, ◌*◌, min, Bool, true, false, not, ◌||◌, List, [], ◌∷◌, length, get_or, set, take,
  drop, replicate, ltb, ◌==◌, if◌then◌else◌, u8, bit_and,
}
use noflate.Exec.{Exec, ◌>>◌, pure, modify}
use noflate.Error.{Result, ok, err, invalid_data, unsupported, gzip_magic, gzip_method}

abbrev pub magic1 : ℕ
magic1 = 0x1F

abbrev pub magic2 : ℕ
magic2 = 0x8B

abbrev pub method_deflate : ℕ
method_deflate = 8

abbrev pub fhcrc : ℕ
fhcrc = 2

abbrev pub fextra : ℕ
fextra = 4

abbrev pub fname : ℕ
fname = 8

abbrev pub fcomment : ℕ
fcomment = 16

pub data State : Type 0 where
  fixed_header extra extra_len name comment hcrc body trailer done : State

-- The fields of the decoder that its header uses.
pub record Header : Type 0 where
  pub state : State
  pub flags : ℕ
  pub header_bytes : List ℕ
  pub header_filled : ℕ
  pub extra_remaining : ℕ
  pub extra_len_bytes_filled : ℕ
  pub extra_len_bytes : List ℕ

unfoldable pub new : Header
new = record {
  state = fixed_header;
  flags = 0;
  header_bytes = replicate 10 0;
  header_filled = 0;
  extra_remaining = 0;
  extra_len_bytes_filled = 0;
  extra_len_bytes = replicate 2 0;
}

-- `self.flags & flag != 0`
abbrev pub has_flag : ℕ → Header → Bool
has_flag flag h = not (bit_and h.flags flag == 0)

unfoldable pub advance_past_comment : Header → Header
advance_past_comment h =
    if has_flag fhcrc h
    then record h { state = hcrc; extra_len_bytes_filled = 0 }
    else record h { state = body }

unfoldable pub advance_past_name : Header → Header
unfolding advance_past_comment
advance_past_name h =
    if has_flag fcomment h then record h { state = comment } else advance_past_comment h

unfoldable pub advance_past_extra : Header → Header
unfolding advance_past_name
advance_past_extra h = if has_flag fname h then record h { state = name } else advance_past_name h

unfoldable pub advance_to_next_header_state : Header → Header
unfolding advance_past_extra
advance_to_next_header_state h =
    if has_flag fextra h
    then record h { state = extra; extra_len_bytes_filled = 0 }
    else advance_past_extra h

unfoldable pub parse_fixed_header : Exec Header (Unit {0})
parse_fixed_header h =
    let b = λ (i : ℕ). get_or h.header_bytes i 0 in
    if not (b 0 == magic1) || not (b 1 == magic2)
    then (err (invalid_data gzip_magic), h)
    else if not (b 2 == method_deflate)
    then (err (unsupported (gzip_method (b 2))), h)
    else (ok tt, record h { flags = b 3 })

-- `xs[at..at + ys.len()].copy_from_slice(ys)`
abbrev pub copy_into : List ℕ → ℕ → List ℕ → List ℕ
copy_into xs at [] = xs
copy_into xs at (y ∷ ys) = copy_into (set xs at y) (at + 1) ys

-- The bytes behind the first 0, and whether there is one.
abbrev pub skip_text : List ℕ → List ℕ × Bool
skip_text [] = ([], false)
skip_text (b ∷ rest) = let later = skip_text rest in if b == 0 then (rest, true) else later

-- The ten bytes of the fixed header. The result of a round is the rest of the input.
fixed_round : List ℕ → Exec Header (List ℕ)
fixed_round rest h =
    let taken = min (10 - h.header_filled) (length rest) in
    let h' = record h {
      header_bytes = copy_into h.header_bytes h.header_filled (take taken rest);
      header_filled = u8 (h.header_filled + taken);
    } in
    if h'.header_filled == 10
    then (do parse_fixed_header; modify advance_to_next_header_state; pure (drop taken rest)) h'
    else (ok (drop taken rest), h')

extra_round : List ℕ → Header → Header × List ℕ
extra_round rest h =
    let taken = min (2 - h.extra_len_bytes_filled) (length rest) in
    let h' = record h {
      extra_len_bytes = copy_into h.extra_len_bytes h.extra_len_bytes_filled (take taken rest);
      extra_len_bytes_filled = u8 (h.extra_len_bytes_filled + taken);
    } in
    if ltb h.extra_len_bytes_filled 2
    then (
      if h'.extra_len_bytes_filled == 2
          then record h' {
            extra_remaining = get_or h'.extra_len_bytes 0 0 + get_or h'.extra_len_bytes 1 0 * 256;
            state = extra_len;
          }
          else h',
      drop taken rest,
    )
    else (record h { state = extra_len }, rest)

extra_len_round : List ℕ → Header → Header × List ℕ
extra_len_round rest h =
    let taken = min h.extra_remaining (length rest) in
    let h' = record h { extra_remaining = h.extra_remaining - taken } in
    (if h'.extra_remaining == 0 then advance_past_extra h' else h', drop taken rest)

name_round : List ℕ → Header → Header × List ℕ
name_round rest h =
    let skipped = skip_text rest in (if skipped.1 then advance_past_name h else h, skipped.0)

comment_round : List ℕ → Header → Header × List ℕ
comment_round rest h =
    let skipped = skip_text rest in (if skipped.1 then advance_past_comment h else h, skipped.0)

-- The two bytes of the header's CRC are skipped.
hcrc_round : List ℕ → Header → Header × List ℕ
hcrc_round rest h =
    let skip = min (2 - h.extra_len_bytes_filled) (length rest) in
    let h' = record h { extra_len_bytes_filled = u8 (h.extra_len_bytes_filled + skip) } in
    (
      if h'.extra_len_bytes_filled == 2
          then record h' { state = body; extra_len_bytes_filled = 0 }
          else h',
      drop skip rest,
    )

-- A round that cannot fail.
abbrev plain : Header × List ℕ → Result (List ℕ) × Header
plain (h, rest) = (ok rest, h)

-- A round of the loop of `feed` in a state of the header. The other states are not its.
unfoldable pub header_round : State → List ℕ → Exec Header (List ℕ)
unfolding fixed_round extra_round extra_len_round name_round comment_round hcrc_round
    parse_fixed_header
header_round fixed_header rest h = fixed_round rest h
header_round extra rest h = plain (extra_round rest h)
header_round extra_len rest h = plain (extra_len_round rest h)
header_round name rest h = plain (name_round rest h)
header_round comment rest h = plain (comment_round rest h)
header_round hcrc rest h = plain (hcrc_round rest h)
header_round _ rest h = (ok rest, h)
