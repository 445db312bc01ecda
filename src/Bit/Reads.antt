-- ===== src/Bit/Reads.antt =====
-- What the operations of the reader do to its stream.
use noflate.Base.{
  ℕ, zero, suc, ◌+◌, ◌-◌, ◌*◌, ◌%◌, ◌^◌, ◌≤◌, ◌<◌, ◌≡◌, refl, sym, ap, ◌∙◌, some, List, [], ◌∷◌,
  ◌++◌, append_assoc, arith, length, length-append, length-drop, drop, IsByte, IsBytes, inl, inr,
  lt→ltb, le→ltb_false, List-cases, get_elem?, get_elem?-drop, drop-suc_of, get_elem?-drop_nil,
  All-drop, bit_or, u8, u64,
}
use mathlib.Core.Path.{subst}
use native.Mathlib.Numerals.{add-one}
use noflate.Base.Bits.{or_shifted, two_pow_le, two_pow_add}
use native.Mathlib.Decide.{dec_lt}
use noflate.Error.{Result, ok, err}
use noflate.Bit.View.{bits, byte_bits, length-bits, length-byte_bits, bits-join}
use noflate.Bit.Reader.{Reader, eof, load, fill}

-- The unread bits: the buffered ones, then those of the bytes not loaded yet.
abbrev pub stream : Reader → List ℕ
stream r = bits r.bit_count r.bit_buffer ++ byte_bits (drop r.byte_index r.input)

-- No more than 23 bits are buffered, and none above `bit_count`.
pub record IsValid (r : Reader) : Type 0 where
  pub index_in : r.byte_index ≤ length r.input
  pub bytes : IsBytes r.input
  pub count_small : r.bit_count < 24
  pub buffer_fits : r.bit_buffer < 2 ^ r.bit_count

-- The buffer after a round of `fill`.
load_buffer :
    (r : Reader) (next : ℕ)
    → r.bit_count < 16
    → IsByte next
    → r.bit_buffer < 2 ^ r.bit_count
    → bit_or r.bit_buffer (u64 (next * 2 ^ r.bit_count)) ≡ r.bit_buffer + next * 2 ^ r.bit_count
load_buffer r next small byte fits =
    let small_power : 2 ^ r.bit_count ≤ 65536 = two_pow_le r.bit_count 16 (omega arith) in
    let product : next * 2 ^ r.bit_count ≤ 255 * 65536 = grind arith in
    let cast : next * 2 ^ r.bit_count % 2 ^ 64 ≡ next * 2 ^ r.bit_count = omega arith in
    rw (cast, or_shifted r.bit_count r.bit_buffer next fits)

module _ {r : Reader} {next : ℕ} {more : List ℕ} (v : IsValid r) (small : r.bit_count < 16)
    (at : drop r.byte_index r.input ≡ next ∷ more) where
  next-IsByte : IsByte next
  next-IsByte =
      let h : IsBytes (next ∷ more) =
        subst IsBytes at (All-drop IsByte r.byte_index r.input v.bytes) in
      h.0

  length-rest : length r.input - r.byte_index ≡ suc (length more)
  length-rest = sym (length-drop r.byte_index r.input) ∙ ap length at

  count_after : u8 (r.bit_count + 8) ≡ r.bit_count + 8
  count_after = let c = v.count_small in omega arith

  buffer_after : bit_or r.bit_buffer (u64 (next * 2 ^ r.bit_count)) < 2 ^ (r.bit_count + 8)
  buffer_after =
      let fits = v.buffer_fits in
      rw (load_buffer r next small next-IsByte fits, two_pow_add) (grind (arith, next-IsByte))

  load-IsValid : IsValid (load next r)
  unfolding load
  load-IsValid = record {
    index_in = omega (arith, length-rest, v.index_in);
    bytes = v.bytes;
    count_small = omega arith;
    buffer_fits = rw count_after buffer_after;
  }

  -- A round of `fill` does not change the stream.
  stream-load : stream (load next r) ≡ stream r
  unfolding load
  stream-load =
      rw
        (
          count_after,
          load_buffer r next small next-IsByte v.buffer_fits,
          bits-join r.bit_count 8 r.bit_buffer next v.buffer_fits,
          append_assoc,
        )
        (ap (λ l. bits r.bit_count r.bit_buffer ++ (bits 8 next ++ byte_bits l)) after
          ∙ sym (ap (λ l. bits r.bit_count r.bit_buffer ++ byte_bits l) at))
    where
      after : drop (r.byte_index + 1) r.input ≡ more
      after = rw add-one (drop-suc_of r.byte_index r.input next more at)

pub length-stream :
    (r : Reader) → length (stream r) ≡ r.bit_count + 8 * (length r.input - r.byte_index)
length-stream r = omega (
  arith,
  length-append {0} (bits r.bit_count r.bit_buffer) (byte_bits (drop r.byte_index r.input)),
  length-bits r.bit_count r.bit_buffer,
  length-byte_bits (drop r.byte_index r.input),
  length-drop {0} r.byte_index r.input,
)

-- What `fill` gives where the stream has the bits that are asked for.
pub record IsFilled (n : ℕ) (r : Reader) (out : Result (Unit {0}) × Reader) : Type 0 where
  pub returns : out.0 ≡ ok tt
  pub same_stream : stream out.1 ≡ stream r
  pub valid : IsValid out.1
  pub enough : n ≤ out.1.bit_count

fill_stops : (fuel n : ℕ) (r : Reader) → n ≤ r.bit_count → fill fuel n r ≡ (ok tt, r)
unfolding fill
fill_stops zero n r h = rw (le→ltb_false r.bit_count n h)
fill_stops (suc fuel) n r h = rw (le→ltb_false r.bit_count n h)

fill_loads :
    (fuel n : ℕ) (r : Reader) (next : ℕ)
    → r.bit_count < n
    → get_elem? r.input r.byte_index ≡ some next
    → fill (suc fuel) n r ≡ fill fuel n (load next r)
unfolding fill
fill_loads fuel n r next h e = rw (lt→ltb r.bit_count n h, e)

fill_enough : (fuel n : ℕ) (r : Reader) → IsValid r → n ≤ r.bit_count → IsFilled n r (fill fuel n r)
fill_enough fuel n r v h =
    rw (fill_stops fuel n r h)
      (record { returns = refl; same_stream = refl; valid = v; enough = h })

IsFilled-load :
    {n : ℕ} {r r' : Reader} {out : Result (Unit {0}) × Reader}
    → stream r' ≡ stream r
    → IsFilled n r' out
    → IsFilled n r out
IsFilled-load e f = record {
  returns = f.returns;
  same_stream = f.same_stream ∙ e;
  valid = f.valid;
  enough = f.enough;
}

no_bytes : (r : Reader) → drop r.byte_index r.input ≡ [] → length (stream r) ≡ r.bit_count
no_bytes r e = omega (
  arith,
  length-append {0} (bits r.bit_count r.bit_buffer) (byte_bits (drop r.byte_index r.input)),
  length-bits r.bit_count r.bit_buffer,
  length-byte_bits (drop r.byte_index r.input),
  ap length e,
)

pub fill-IsFilled :
    (fuel n : ℕ) (r : Reader)
    → IsValid r
    → n ≤ 16
    → n ≤ r.bit_count + fuel
    → n ≤ length (stream r)
    → IsFilled n r (fill fuel n r)
fill-IsFilled zero n r v small fuel_enough h = fill_enough zero n r v (omega arith)
fill-IsFilled (suc fuel) n r v small fuel_enough h = elim (dec_lt r.bit_count n) [
  | no ge ↦ fill_enough (suc fuel) n r v (omega arith)
  | yes lt ↦ elim (List-cases (drop r.byte_index r.input)) [
    | inl nil ↦ absurd (omega (arith, no_bytes r nil))
    | inr (next, more, at) ↦
        let same = stream-load v (omega arith) at in
        let rest : IsFilled n (load next r) (fill fuel n (load next r)) =
          fill-IsFilled fuel n (load next r) (load-IsValid v (omega arith) at) small
            (unfold load in omega (arith, count_after v (omega arith) at)) (rw same h) in
        rw (fill_loads fuel n r next lt (get_elem?-drop r.byte_index r.input next more at))
          (IsFilled-load same rest)
  ]
]

pub fill-eof :
    (fuel n : ℕ) (r : Reader)
    → IsValid r
    → n ≤ 16
    → n ≤ r.bit_count + fuel
    → length (stream r) < n
    → (fill fuel n r).0 ≡ err eof
fill-eof zero n r v small fuel_enough h = absurd (omega (arith, length-stream r))
fill-eof (suc fuel) n r v small fuel_enough h = elim (List-cases (drop r.byte_index r.input)) [
  | inl nil ↦ stops nil
  | inr (next, more, at) ↦
      let same = stream-load v (omega (arith, length-stream r)) at in
      rw
        (fill_loads fuel n r next (omega (arith, length-stream r))
          (get_elem?-drop r.byte_index r.input next more at))
        (fill-eof fuel n (load next r) (load-IsValid v (omega (arith, length-stream r)) at) small
          (unfold load in omega (arith, count_after v (omega (arith, length-stream r)) at))
          (rw same h))
]
  where
    stops : drop r.byte_index r.input ≡ [] → (fill (suc fuel) n r).0 ≡ err eof
    stops nil =
        unfold fill in
        rw (
          lt→ltb r.bit_count n (omega (arith, length-stream r)),
          get_elem?-drop_nil r.byte_index r.input nil,
        )
