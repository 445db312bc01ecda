-- ===== src/Decode/Stream/StoredSteps.antt =====
-- The steps of src/decode.rs on a stored block that starts on a byte boundary and is all there.
use noflate.Base.{
  ℕ, ◌+◌, ◌-◌, ◌*◌, ◌/◌, ◌%◌, ◌≤◌, ◌<◌, ◌≡◌, refl, sym, ap, ◌∙◌, min, Bool, true, false, List, ◌∷◌,
  ◌++◌, arith, length, length-append, length-drop, take, drop, take-append_self, get_elem?-drop,
  le→leb, le→ltb_false, leb, ltb, ◌==◌, if◌then◌else◌, le_bytes_16,
}
use noflate.Error.{ok}
use noflate.Symbol.{max_stored_block}
use noflate.Bit.Reader.{
  Reader, read_bit, read_bits, read_bytes, align_to_byte, available_bits, residual_bit_count,
}
use noflate.Decode.State.{
  DecodeState, Machine, block_header, stored_align_and_len, stored_body, finished, progress, done,
  on_reader,
}
use noflate.Decode.Header.{
  step_block_header, step_stored_align_and_len, step_stored_body, start_block, take_lengths,
}
use noflate.Decode.Body.{step}

-- A reader of `all` at byte `i`, with `n` bits buffered that are all 0.
abbrev pub at : List ℕ → ℕ → ℕ → Reader
at all i n = record { input = all; byte_index = i; bit_buffer = 0; bit_count = n }

abbrev pub machine_at : List ℕ → ℕ → ℕ → DecodeState → List ℕ → Machine
machine_at all i n state out = record { reader = at all i n; state = state; output = out }

abbrev pub header_byte : Bool → ℕ
header_byte is_final = if is_final then 1 else 0

module _ (drained : ℕ) (all out : List ℕ) (i : ℕ) where
  pub step-header :
      (is_final : Bool) (t : List ℕ)
      → drop i all ≡ header_byte is_final ∷ t
      → step drained (machine_at all i 0 block_header out)
        ≡ (ok progress, machine_at all (i + 1) 5 (stored_align_and_len is_final) out)
  unfolding step step_block_header read_bit read_bits on_reader available_bits start_block
  step-header true t here =
      let enough : leb 3 (0 + (length all - i) * 8) ≡ true =
        le→leb _ _ (omega (arith, length-drop {0} i all, ap length here)) in
      rw (enough, get_elem?-drop i all 1 t here) refl
  step-header false t here =
      let enough : leb 3 (0 + (length all - i) * 8) ≡ true =
        le→leb _ _ (omega (arith, length-drop {0} i all, ap length here)) in
      rw (enough, get_elem?-drop i all 0 t here) refl

  pub step-lengths :
      (is_final : Bool) (n : ℕ) (t : List ℕ)
      → n ≤ max_stored_block
      → drop i all ≡ le_bytes_16 n ++ (le_bytes_16 (65535 - n) ++ t)
      → step drained (machine_at all i 5 (stored_align_and_len is_final) out)
        ≡ (ok progress, machine_at all (i + 4) 0 (stored_body n is_final) out)
  unfolding step step_stored_align_and_len read_bytes align_to_byte on_reader available_bits
      residual_bit_count take_lengths
  step-lengths is_final n t small here =
      let size = length-drop {0} i all in
      let size' = ap length here in
      let enough : leb 37 (5 + (length all - i) * 8) ≡ true =
        le→leb _ _ (omega (arith, size, size')) in
      let inside : leb (i - 0 + 4) (length all) ≡ true = le→leb _ _ (omega (arith, size, size')) in
      let from : i - 0 ≡ i = omega arith in
      let no_underflow : ltb i 0 ≡ false = le→ltb_false i 0 (omega arith) in
      let four : i + 4 - i ≡ 4 = omega arith in
      let len : n % 256 + n / 256 % 256 * 256 ≡ n = omega arith in
      let nlen : (65535 - n) % 256 + (65535 - n) / 256 % 256 * 256 ≡ 65535 - n = omega arith in
      let same : (65535 - n == 65535 - n) ≡ true = ground arith in
      rw (enough, no_underflow, inside, from, four, here, len, nlen, same) refl

  -- A body that is all there is taken in one step.
  pub step-body :
      (is_final : Bool) (n : ℕ) (b t : List ℕ)
      → 0 < n
      → length b ≡ n
      → drop i all ≡ b ++ t
      → step drained (machine_at all i 0 (stored_body n is_final) out)
        ≡ (ok progress, machine_at all (i + n) 0 (stored_body 0 is_final) (out ++ b))
  unfolding step step_stored_body read_bytes on_reader available_bits
  step-body is_final n b t pos len here =
      let size = length-drop {0} i all in
      let size' = ap length here ∙ length-append b t in
      let some_left : (n == 0) ≡ false = ground arith in
      let avail : (0 + (length all - i) * 8) / 8 ≡ length all - i = omega arith in
      let some_there : (length all - i == 0) ≡ false = ground (arith, size, size', len) in
      let whole : min (length all - i) n ≡ n = omega (arith, size, size', len) in
      let from : i - 0 ≡ i = omega arith in
      let no_underflow : ltb i 0 ≡ false = le→ltb_false i 0 (omega arith) in
      let inside : leb (i + n) (length all) ≡ true = le→leb _ _ (omega (arith, size, size', len)) in
      let width : i + n - i ≡ n = omega arith in
      let rest : n - n ≡ 0 = omega arith in
      let taken : take n (b ++ t) ≡ b =
        ap (λ k. take k (b ++ t)) (sym len) ∙ take-append_self b t in
      rw (some_left, avail, some_there, whole, no_underflow, from, inside, width, here, taken, rest)
        refl

  pub step-end_of_body :
      step drained (machine_at all i 0 (stored_body 0 false) out)
      ≡ (ok progress, machine_at all i 0 block_header out)
  unfolding step step_stored_body
  step-end_of_body = refl

  pub step-end_of_stream :
      step drained (machine_at all i 0 (stored_body 0 true) out)
      ≡ (ok done, machine_at all i 0 finished out)
  unfolding step step_stored_body
  step-end_of_stream = refl
