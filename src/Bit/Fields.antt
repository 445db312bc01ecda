-- ===== src/Bit/Fields.antt =====
-- The writer against the reader of src/bit.rs: a sequence of bit fields.
use native.Mathlib.Nat.{mod-eq_of_lt, div-eq_of_lt}
use native.Mathlib.Decide.{dec_lt, dec_le}
use noflate.Base.{
  ℕ, zero, suc, ◌+◌, ◌-◌, ◌*◌, ◌^◌, ◌≤◌, ◌<◌, ◌≡◌, refl, sym, ap, ◌∙◌, List, [], ◌∷◌, ◌++◌,
  append_assoc, append-nil, arith, length, length-append, map, take-append_self, drop-append_self,
  take, drop, IsByte, IsBytes, All, All-append, le→leb, lt→leb_false, lt→ltb, le→ltb_false, u8, u64,
  bit_or,
}
use noflate.Base.Bits.{two_pow_le}
use noflate.Error.{ok}
use noflate.Exec.{Exec, ◌>>=◌, pure}
use noflate.Bit.View.{
  bits, value, byte_bits, length-bits, value-bits, bits-append, byte_bits-append,
}
use noflate.Bit.Reader
use noflate.Bit.Reader.{Reader, read_bits}
use noflate.Bit.Writer
use noflate.Bit.Writer.{Writer, push_byte, flush, write_bits, align_to_byte}
use noflate.Bit.Reads.{stream, IsValid}
use noflate.Bit.Refine.{read_bits-IsRead}
use noflate.Bit.Writes.{written, IsFlushed, written-write_bits}

-- A width and a value, for each field.
abbrev pub write_fields : List (ℕ × ℕ) → Writer → Writer
write_fields [] w = w
write_fields (f ∷ fs) w = write_fields fs (write_bits f.0 f.1 w)

abbrev pub read_fields : List ℕ → Exec Reader (List ℕ)
read_fields [] = pure []
read_fields (n ∷ ns) = do b ← read_bits n; bs ← read_fields ns; pure (b ∷ bs)

abbrev pub widths : List (ℕ × ℕ) → List ℕ
widths = map (λ f. f.0)

abbrev pub values : List (ℕ × ℕ) → List ℕ
values = map (λ f. f.1)

abbrev pub IsField : ℕ × ℕ → Type 0
IsField f = (f.0 ≤ 16) × (f.1 < 2 ^ f.0)

abbrev field_bits : List (ℕ × ℕ) → List ℕ
field_bits [] = []
field_bits (f ∷ fs) = bits f.0 f.1 ++ field_bits fs

written-write_fields :
    (fs : List (ℕ × ℕ)) (w : Writer)
    → IsFlushed w
    → All IsField fs
    → IsFlushed (write_fields fs w) × (written (write_fields fs w) ≡ written w ++ field_bits fs)
written-write_fields [] w h all = (h, sym (append-nil (written w)))
written-write_fields (f ∷ fs) w h (b, all) =
    let one = written-write_bits f.0 f.1 w h b.0 b.1 in
    let more = written-write_fields fs (write_bits f.0 f.1 w) one.0 all in
    (
      more.0,
      more.1
          ∙ ap (λ l. l ++ field_bits fs) one.1
          ∙ append_assoc (written w) (bits f.0 f.1) (field_bits fs),
    )

take-bits_append : (n x : ℕ) (ys : List ℕ) → take n (bits n x ++ ys) ≡ bits n x
take-bits_append n x ys =
    ap (λ k. take k (bits n x ++ ys)) (sym (length-bits n x)) ∙ take-append_self (bits n x) ys

drop-bits_append : (n x : ℕ) (ys : List ℕ) → drop n (bits n x ++ ys) ≡ ys
drop-bits_append n x ys =
    ap (λ k. drop k (bits n x ++ ys)) (sym (length-bits n x)) ∙ drop-append_self (bits n x) ys

-- Fields at the head of a stream are read back.
pub read_fields_lem :
    (fs : List (ℕ × ℕ)) (rest : List ℕ) (r : Reader)
    → IsValid r
    → All IsField fs
    → stream r ≡ field_bits fs ++ rest
    → ((read_fields (widths fs) r).0 ≡ ok (values fs))
      × (stream (read_fields (widths fs) r).1 ≡ rest)
read_fields_lem [] rest r v all e = (refl, e)
read_fields_lem (f ∷ fs) rest r v (b, all) e =
    let joined : stream r ≡ bits f.0 f.1 ++ (field_bits fs ++ rest) =
      e ∙ append_assoc (bits f.0 f.1) (field_bits fs) rest in
    let long : f.0 ≤ length (stream r) = rw joined (
      omega
        (arith, length-append {0} (bits f.0 f.1) (field_bits fs ++ rest), length-bits f.0 f.1)) in
    let one = read_bits-IsRead f.0 r v b.0 long in
    let returns : (read_bits f.0 r).0 ≡ ok f.1 =
      one.returns
      ∙ ap (λ l. ok (value l))
          (ap (take f.0) joined ∙ take-bits_append f.0 f.1 (field_bits fs ++ rest))
      ∙ ap ok (value-bits f.0 f.1 ∙ mod-eq_of_lt b.1) in
    let behind : stream (read_bits f.0 r).1 ≡ field_bits fs ++ rest =
      one.rest ∙ ap (drop f.0) joined ∙ drop-bits_append f.0 f.1 (field_bits fs ++ rest) in
    let more = read_fields_lem fs rest (read_bits f.0 r).1 one.valid all behind in
    rw returns (rw (more.0) (refl, more.1))

flush-IsBytes : (fuel : ℕ) (w : Writer) → IsBytes w.output → IsBytes (flush fuel w).output
unfolding flush push_byte
flush-IsBytes zero w h = h
flush-IsBytes (suc fuel) w h = elim (dec_le 8 w.bit_count) [
  | yes big ↦
      rw (le→leb 8 w.bit_count big)
        (flush-IsBytes fuel (push_byte w) (All-append IsByte w.output _ h (omega arith, tt)))
  | no less ↦ rw (lt→leb_false 8 w.bit_count (omega arith)) h
]

write_bits-IsBytes : (n b : ℕ) (w : Writer) → IsBytes w.output → IsBytes (write_bits n b w).output
unfolding write_bits
write_bits-IsBytes n b w h =
    let c = u8 (w.bit_count + n) in
    flush-IsBytes c
      (record w { bit_buffer = bit_or w.bit_buffer (u64 (b * 2 ^ w.bit_count)); bit_count = c }) h

write_fields-IsBytes :
    (fs : List (ℕ × ℕ)) (w : Writer) → IsBytes w.output → IsBytes (write_fields fs w).output
write_fields-IsBytes [] w h = h
write_fields-IsBytes (f ∷ fs) w h =
    write_fields-IsBytes fs (write_bits f.0 f.1 w) (write_bits-IsBytes f.0 f.1 w h)

-- A partial byte goes out with zeros above its bits.
last_byte :
    (w : Writer)
    → IsFlushed w
    → bits 8 (u8 w.bit_buffer) ≡ bits w.bit_count w.bit_buffer ++ bits (8 - w.bit_count) 0
last_byte w h =
    let c = h.count_small in
    let small : 2 ^ w.bit_count ≤ 2 ^ 8 = two_pow_le w.bit_count 8 (omega arith) in
    let e : u8 w.bit_buffer ≡ w.bit_buffer = mod-eq_of_lt (omega (arith, h.buffer_fits)) in
    let k : 8 ≡ w.bit_count + (8 - w.bit_count) = omega arith in
    ap (bits 8) e
    ∙ ap (λ m. bits m w.bit_buffer) k
    ∙ bits-append w.bit_count (8 - w.bit_count) w.bit_buffer
    ∙ ap (λ q. bits w.bit_count w.bit_buffer ++ bits (8 - w.bit_count) q)
        (div-eq_of_lt h.buffer_fits)

IsPadded : Writer → List ℕ → Type 0
IsPadded w out = (pad : List ℕ) × (byte_bits out ≡ written w ++ pad)

-- The last byte is filled up.
align_to_byte_lem : (w : Writer) → IsFlushed w → IsPadded w (align_to_byte w).output
unfolding align_to_byte IsPadded
align_to_byte_lem w h = elim (dec_lt 0 w.bit_count) [
  | yes more ↦ rw (lt→ltb 0 w.bit_count more) (
    bits (8 - w.bit_count) 0,
    byte_bits-append w.output (u8 w.bit_buffer ∷ [])
        ∙ ap (λ l. byte_bits w.output ++ l) (append-nil (bits 8 (u8 w.bit_buffer)) ∙ last_byte w h)
        ∙ sym (
            append_assoc (byte_bits w.output) (bits w.bit_count w.bit_buffer)
              (bits (8 - w.bit_count) 0)),
  )
  | no done ↦
      let e : w.bit_count ≡ 0 = omega arith in
      rw (le→ltb_false 0 w.bit_count (omega arith)) (
        [],
        sym (
            append-nil (written w)
            ∙ ap (λ k. byte_bits w.output ++ bits k w.bit_buffer) e
            ∙ append-nil (byte_bits w.output)),
      )
]

align_to_byte-IsBytes : (w : Writer) → IsBytes w.output → IsBytes (align_to_byte w).output
unfolding align_to_byte
align_to_byte-IsBytes w h = elim (dec_lt 0 w.bit_count) [
  | yes more ↦
      rw (lt→ltb 0 w.bit_count more)
        (All-append IsByte w.output (u8 w.bit_buffer ∷ []) h (omega arith, tt))
  | no done ↦ rw (le→ltb_false 0 w.bit_count (omega arith)) h
]

-- What a fresh writer puts out for `fs`, with its last byte filled up.
abbrev pub encode_fields : List (ℕ × ℕ) → List ℕ
encode_fields fs = (align_to_byte (write_fields fs (Writer.new_seeded [] 0 0))).output

-- Fields that fit their widths, 16 bits at most, are read back from the bytes written.
pub read_fields-encode_fields :
    (fs : List (ℕ × ℕ))
    → All IsField fs
    → (read_fields (widths fs) (Reader.new_seeded (encode_fields fs) 0 0)).0 ≡ ok (values fs)
unfolding IsPadded Writer.new_seeded Reader.new_seeded
read_fields-encode_fields fs all =
    let fresh : IsFlushed (Writer.new_seeded [] 0 0) = record {
      count_small = omega arith;
      buffer_fits = omega arith;
    } in
    let out = written-write_fields fs (Writer.new_seeded [] 0 0) fresh all in
    let padded = align_to_byte_lem (write_fields fs (Writer.new_seeded [] 0 0)) out.0 in
    let valid : IsValid (Reader.new_seeded (encode_fields fs) 0 0) = record {
      index_in = omega arith;
      bytes = align_to_byte-IsBytes _ (write_fields-IsBytes fs (Writer.new_seeded [] 0 0) tt);
      count_small = omega arith;
      buffer_fits = omega arith;
    } in
    (read_fields_lem fs padded.0 (Reader.new_seeded (encode_fields fs) 0 0) valid all
      (padded.1 ∙ ap (λ l. l ++ padded.0) out.1)).0
