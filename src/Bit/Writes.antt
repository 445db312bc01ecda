-- ===== src/Bit/Writes.antt =====
-- What the operations of the writer append to its stream of bits.
use native.Mathlib.Decide.{dec_le}
use native.Mathlib.Nat.{div-eq_of_lt}
use noflate.Base.{
  replicate, ℕ, zero, suc, ◌+◌, ◌-◌, ◌*◌, ◌/◌, ◌%◌, ◌^◌, ◌≤◌, ◌<◌, ◌≡◌, refl, sym, ap, ◌∙◌, List,
  [], ◌∷◌, ◌++◌, append_assoc, append-nil, arith, le→leb, lt→leb_false, lt→ltb, le→ltb_false,
  bit_or, u8, u64, IsByte, IsBytes, All-append,
}
use noflate.Base.Bits.{or_shifted, two_pow_le, two_pow_add}
use noflate.Bit.View.{bits, byte_bits, bits-append, bits-add_high, bits-join, byte_bits-append}
use noflate.Bit.Writer.{Writer, flush, write_bits, push_byte, align_to_byte, finish}

-- The bits written so far: those of the whole bytes, then the buffered ones.
abbrev pub written : Writer → List ℕ
written w = byte_bits w.output ++ bits w.bit_count w.bit_buffer

pub record IsFlushed (w : Writer) : Type 0 where
  pub count_small : w.bit_count < 8
  pub buffer_fits : w.bit_buffer < 2 ^ w.bit_count

abbrev Fits : Writer → Type 0
Fits w = w.bit_buffer < 2 ^ w.bit_count

bits-mod_byte : (x : ℕ) → bits 8 (x % 256) ≡ bits 8 x
bits-mod_byte x = sym (bits-add_high 8 (x % 256) (x / 256)) ∙ ap (bits 8) (omega arith)

module _ (w : Writer) (big : 8 ≤ w.bit_count) (fits : Fits w) where
  push_byte-Fits : Fits (push_byte w)
  unfolding push_byte
  push_byte-Fits =
      let e : w.bit_count ≡ w.bit_count - 8 + 8 = omega arith in
      let h : w.bit_buffer < 2 ^ (w.bit_count - 8 + 8) = rw (← e) fits in
      omega (arith, two_pow_add (w.bit_count - 8) 8)

  written-push_byte : written (push_byte w) ≡ written w
  unfolding push_byte
  written-push_byte =
      let e : 8 + (w.bit_count - 8) ≡ w.bit_count = omega arith in
      rw (byte_bits-append, append_assoc)
        (ap (λ l. byte_bits w.output ++ (l ++ bits (w.bit_count - 8) (w.bit_buffer / 2 ^ 8)))
            (append-nil _ ∙ bits-mod_byte w.bit_buffer)
          ∙ ap (λ l. byte_bits w.output ++ l)
              (sym (bits-append 8 (w.bit_count - 8) w.bit_buffer)
                ∙ ap (λ k. bits k w.bit_buffer) e))

flush-IsFlushed :
    (fuel : ℕ) (w : Writer)
    → Fits w
    → w.bit_count ≤ fuel
    → IsFlushed (flush fuel w) × (written (flush fuel w) ≡ written w)
unfolding flush
flush-IsFlushed zero w fits h = (record { count_small = omega arith; buffer_fits = fits }, refl)
flush-IsFlushed (suc fuel) w fits h = elim (dec_le 8 w.bit_count) [
  | yes big ↦
      let rest =
        flush-IsFlushed fuel (push_byte w) (push_byte-Fits w big fits)
          (unfold push_byte in omega arith) in
      rw (le→leb 8 w.bit_count big) (rest.0, rest.1 ∙ written-push_byte w big fits)
  | no less ↦
      rw (lt→leb_false 8 w.bit_count (omega arith))
        (record { count_small = omega arith; buffer_fits = fits }, refl)
]

-- The writer with `b` above its buffered bits, before the flush.
joined : ℕ → ℕ → Writer → Writer
joined n b w = record w {
  bit_buffer = w.bit_buffer + b * 2 ^ w.bit_count;
  bit_count = w.bit_count + n;
}

module _ (n b : ℕ) (w : Writer) (f : IsFlushed w) where
  u8_count : n ≤ 16 → u8 (w.bit_count + n) ≡ w.bit_count + n
  u8_count small = let c = f.count_small in omega arith

  join_buffer :
      n ≤ 16
      → b < 2 ^ n
      → bit_or w.bit_buffer (u64 (b * 2 ^ w.bit_count)) ≡ w.bit_buffer + b * 2 ^ w.bit_count
  join_buffer small fits =
      let c = f.count_small in
      let below : 2 ^ w.bit_count ≤ 128 = two_pow_le w.bit_count 7 (omega arith) in
      let value_below : 2 ^ n ≤ 65536 = two_pow_le n 16 small in
      let product : b * 2 ^ w.bit_count ≤ 65536 * 128 = grind arith in
      let cast : b * 2 ^ w.bit_count % 2 ^ 64 ≡ b * 2 ^ w.bit_count = omega arith in
      rw (cast, or_shifted w.bit_count w.bit_buffer b f.buffer_fits)

  joined-Fits : b < 2 ^ n → Fits (joined n b w)
  unfolding joined
  joined-Fits fits = let g = f.buffer_fits in rw two_pow_add (grind arith)

  written-joined : written (joined n b w) ≡ written w ++ bits n b
  unfolding joined
  written-joined = rw (bits-join w.bit_count n w.bit_buffer b f.buffer_fits, append_assoc)

-- On a writer with less than a byte buffered, writing `n` bits, 16 at most, appends the `n` digits
-- of a value that has no more, and leaves less than a byte buffered.
pub written-write_bits :
    (n b : ℕ) (w : Writer)
    → IsFlushed w
    → n ≤ 16
    → b < 2 ^ n
    → IsFlushed (write_bits n b w) × (written (write_bits n b w) ≡ written w ++ bits n b)
unfolding write_bits joined
written-write_bits n b w f small fits =
    let flushed =
      flush-IsFlushed (w.bit_count + n) (joined n b w) (joined-Fits n b w f fits) (omega arith) in
    rw (u8_count n b w f small, join_buffer n b w f small fits)
      (flushed.0, flushed.1 ∙ written-joined n b w f)

-- A writer whose output goes on from that of another.
pub record Extends (w w' : Writer) : Type 0 where
  pub more : List ℕ
  pub output : w'.output ≡ w.output ++ more
  pub bytes : IsBytes more

pub Extends-refl : (w : Writer) → Extends w w
Extends-refl w = record { more = []; output = sym (append-nil w.output); bytes = tt }

pub Extends-join : {w w' w'' : Writer} → Extends w w' → Extends w' w'' → Extends w w''
Extends-join {w} a b = record {
  more = a.more ++ b.more;
  output = b.output ∙ ap (λ l. l ++ b.more) a.output ∙ append_assoc w.output a.more b.more;
  bytes = All-append IsByte a.more b.more a.bytes b.bytes;
}

flush-Extends : (fuel : ℕ) (w : Writer) → Extends w (flush fuel w)
unfolding flush
flush-Extends zero w = Extends-refl w
flush-Extends (suc fuel) w = elim (dec_le 8 w.bit_count) [
  | yes big ↦
      let pushed : Extends w (push_byte w) =
        unfold push_byte in
        record { more = u8 w.bit_buffer ∷ []; output = refl; bytes = (omega arith, tt) } in
      rw (le→leb 8 w.bit_count big) (Extends-join pushed (flush-Extends fuel (push_byte w)))
  | no less ↦ rw (lt→leb_false 8 w.bit_count (omega arith)) (Extends-refl w)
]

pub write_bits-Extends : (n b : ℕ) (w : Writer) → Extends w (write_bits n b w)
unfolding write_bits
write_bits-Extends n b w =
    let e = flush-Extends (u8 (w.bit_count + n)) (record w {
      bit_buffer = bit_or w.bit_buffer (u64 (b * 2 ^ w.bit_count));
      bit_count = u8 (w.bit_count + n);
    }) in
    record { more = e.more; output = e.output; bytes = e.bytes }

bits-zero : (n : ℕ) → bits n 0 ≡ replicate n 0
bits-zero zero = refl
bits-zero (suc n) = ap (λ l. 0 ∷ l) (bits-zero n)

-- The padding of the last byte.
pub written-finish :
    (w : Writer)
    → IsFlushed w
    → (pad : ℕ) × (pad < 8)
      × (written (finish w) ≡ written w ++ replicate pad 0)
      × Extends w (finish w)
      × ((finish w).bit_count ≡ 0)
unfolding finish align_to_byte
written-finish w f = elim (dec_le 1 w.bit_count) [
  | no none ↦
      let e : w.bit_count ≡ 0 = omega arith in
      rw (le→ltb_false 0 w.bit_count (omega arith))
        (0, omega arith, sym (append-nil (written w)), Extends-refl w, e)
  | yes some_bits ↦
      let small = f.count_small in
      let pad : List ℕ = replicate (8 - w.bit_count) 0 in
      let eight : w.bit_count + (8 - w.bit_count) ≡ 8 = omega arith in
      let last : bits 8 (u8 w.bit_buffer) ≡ bits w.bit_count w.bit_buffer ++ pad =
        bits-mod_byte w.bit_buffer
        ∙ ap (λ k. bits k w.bit_buffer) (sym eight)
        ∙ bits-append w.bit_count (8 - w.bit_count) w.bit_buffer
        ∙ ap (λ x. bits w.bit_count w.bit_buffer ++ bits (8 - w.bit_count) x)
            (div-eq_of_lt f.buffer_fits)
        ∙ ap (λ l. bits w.bit_count w.bit_buffer ++ l) (bits-zero (8 - w.bit_count)) in
      rw (lt→ltb 0 w.bit_count some_bits) (
        8 - w.bit_count,
        omega arith,
        append-nil _
            ∙ byte_bits-append w.output (u8 w.bit_buffer ∷ [])
            ∙ ap (λ l. byte_bits w.output ++ l) (append-nil _ ∙ last)
            ∙ sym (append_assoc (byte_bits w.output) (bits w.bit_count w.bit_buffer) pad),
        record { more = u8 w.bit_buffer ∷ []; output = refl; bytes = (omega arith, tt) },
        refl,
      )
]
