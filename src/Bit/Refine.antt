-- ===== src/Bit/Refine.antt =====
-- The reading operations of `BitReader` against the stream of bits.
use native.Mathlib.Nat.{mod-eq_of_lt, div-lt_iff_lt-mul}
use noflate.Base.{
  ℕ, zero, suc, ◌+◌, ◌-◌, ◌*◌, ◌/◌, ◌%◌, ◌^◌, ◌≤◌, ◌<◌, ◌≡◌, refl, sym, ap, ◌∙◌, ◌∷◌, ◌++◌, arith,
  length, take, drop, take-append_le, drop-append_le, drop-append_self, le→ltb_false, bit_and, u16,
}
use noflate.Base.Bits.{and_mask, two_pow_le, two_pow_add}
use noflate.Error.{Result, ok, err}
use noflate.Bit.View.{bits, value, byte_bits, length-bits, value-bits, bits-append}
use noflate.Bit.Reader.{Reader, eof, peek_bits, skip_bits, read_bits, shift_out, available_bits}
use noflate.Bit.Reads.{stream, IsValid, fill-IsFilled, fill-eof, length-stream}

-- `available_bits` is the number of bits that the stream has.
pub available_bits-eq-length : (r : Reader) → available_bits r ≡ length (stream r)
unfolding available_bits
available_bits-eq-length r = omega (arith, length-stream r)

pub take-bits : (n c x : ℕ) → n ≤ c → take n (bits c x) ≡ bits n x
take-bits zero c x h = refl
take-bits (suc n) zero x h = absurd (omega arith)
take-bits (suc n) (suc c) x h = ap (λ l. (x % 2) ∷ l) (take-bits n c (x / 2) (omega arith))

drop-bits : (n c x : ℕ) → n ≤ c → drop n (bits c x) ≡ bits (c - n) (x / 2 ^ n)
drop-bits n c x h =
    let e : n + (c - n) ≡ c = omega arith in
    ap (λ k. drop n (bits k x)) (sym e)
    ∙ ap (drop n) (bits-append n (c - n) x)
    ∙ ap (λ k. drop k (bits n x ++ bits (c - n) (x / 2 ^ n))) (sym (length-bits n x))
    ∙ drop-append_self (bits n x) (bits (c - n) (x / 2 ^ n))

module _ {r : Reader} (n : ℕ) (v : IsValid r) (h : n ≤ r.bit_count) where
  pub take-stream : take n (stream r) ≡ bits n r.bit_buffer
  take-stream =
      take-append_le n (bits r.bit_count r.bit_buffer) (byte_bits (drop r.byte_index r.input))
        (rw length-bits h)
      ∙ take-bits n r.bit_count r.bit_buffer h

  -- The low bits of the buffer are the next of the stream.
  peeked : n ≤ 16 → u16 (bit_and r.bit_buffer (2 ^ n - 1)) ≡ value (take n (stream r))
  peeked small =
      rw (take-stream, value-bits, and_mask)
        (mod-eq_of_lt (omega (arith, two_pow_le n 16 small, two_pow_le 0 n (omega arith))))

  pub stream-shift_out : stream (shift_out n r) ≡ drop n (stream r)
  unfolding shift_out
  stream-shift_out = rw (
    drop-append_le n (bits r.bit_count r.bit_buffer) (byte_bits (drop r.byte_index r.input))
        (rw length-bits h),
    drop-bits n r.bit_count r.bit_buffer h,
  )

  fits : r.bit_buffer < 2 ^ (r.bit_count - n) * 2 ^ n
  fits =
      let e : r.bit_count - n + n ≡ r.bit_count = omega arith in rw (← two_pow_add, e) v.buffer_fits

  pub shift_out-IsValid : IsValid (shift_out n r)
  unfolding shift_out
  shift_out-IsValid = record {
    index_in = v.index_in;
    bytes = v.bytes;
    count_small = omega arith;
    buffer_fits = (div-lt_iff_lt-mul (omega (arith, two_pow_le 0 n (omega arith)))).1 fits;
  }

-- What a look at `n` bits gives: their value, with the stream as it was.
pub record IsPeeked (n : ℕ) (r : Reader) (out : Result ℕ × Reader) : Type 0 where
  pub returns : out.0 ≡ ok (value (take n (stream r)))
  pub same_stream : stream out.1 ≡ stream r
  pub valid : IsValid out.1
  pub enough : n ≤ out.1.bit_count

-- What a read of `n` bits gives: their value, and the stream behind them.
pub record IsRead (n : ℕ) (r : Reader) (out : Result ℕ × Reader) : Type 0 where
  pub returns : out.0 ≡ ok (value (take n (stream r)))
  pub rest : stream out.1 ≡ drop n (stream r)
  pub valid : IsValid out.1

-- A look at up to 16 bits that the stream has gives their value and leaves the stream and the
-- reader's validity as they were.
pub peek_bits-IsPeeked :
    (n : ℕ) (r : Reader) → IsValid r → n ≤ 16 → n ≤ length (stream r) → IsPeeked n r (peek_bits n r)
unfolding peek_bits
peek_bits-IsPeeked n r v small h =
    let f = fill-IsFilled n n r v small (omega arith) h in
    rw f.returns (record {
      returns = ap ok (peeked n f.valid f.enough small ∙ ap (λ l. value (take n l)) f.same_stream);
      same_stream = f.same_stream;
      valid = f.valid;
      enough = f.enough;
    })

pub peek_bits-eof :
    (n : ℕ) (r : Reader) → IsValid r → n ≤ 16 → length (stream r) < n → (peek_bits n r).0 ≡ err eof
unfolding peek_bits
peek_bits-eof n r v small h = rw (fill-eof n n r v small (omega arith) h)

pub skip_bits_enough :
    (n : ℕ) (r : Reader) → n ≤ r.bit_count → skip_bits n r ≡ (ok tt, shift_out n r)
unfolding skip_bits
skip_bits_enough n r h = rw (le→ltb_false r.bit_count n h)

-- Reading up to 16 bits that the stream has gives their value, takes them off the stream and keeps
-- the reader valid.
pub read_bits-IsRead :
    (n : ℕ) (r : Reader) → IsValid r → n ≤ 16 → n ≤ length (stream r) → IsRead n r (read_bits n r)
unfolding read_bits
read_bits-IsRead n r v small h =
    let p = peek_bits-IsPeeked n r v small h in
    let s = skip_bits_enough n (peek_bits n r).1 p.enough in
    rw p.returns (
      rw s (record {
        returns = refl;
        rest = stream-shift_out n p.valid p.enough ∙ ap (drop n) p.same_stream;
        valid = shift_out-IsValid n p.valid p.enough;
      }))

-- Reading more bits, up to 16, than the stream of a valid reader has is the end-of-stream error.
pub read_bits-eof :
    (n : ℕ) (r : Reader) → IsValid r → n ≤ 16 → length (stream r) < n → (read_bits n r).0 ≡ err eof
unfolding read_bits
read_bits-eof n r v small h = rw (peek_bits-eof n r v small h)
