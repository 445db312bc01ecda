-- ===== src/Decode/Stream/StoredWaits.antt =====
-- The steps of src/decode.rs on a stored block of which a part is there: they take that part, or wait.
use noflate.Base.{
  ℕ, ◌+◌, ◌-◌, ◌*◌, ◌/◌, ◌≤◌, ◌<◌, ◌≡◌, refl, sym, ap, ◌∙◌, min, Bool, List, ◌++◌, arith, length,
  length-append, length-drop, take, drop, take-append_self, le→leb, lt→leb_false, le→ltb_false, leb,
  ltb, ◌==◌, true, false,
}
use noflate.Error.{ok}
use noflate.Bit.Reader.{restore, snapshot, read_bytes, available_bits, residual_bit_count}
use noflate.Decode.State.{
  block_header, stored_align_and_len, stored_body, finished, progress, need_more_bytes, done,
  roll_back, on_reader,
}
use noflate.Decode.Header.{step_block_header, step_stored_align_and_len, step_stored_body}
use noflate.Decode.Body.{step}
use noflate.Decode.Stream.StoredSteps.{machine_at}

module _ (drained : ℕ) (all out : List ℕ) (i : ℕ) where
  pub wait-header :
      length all ≤ i
      → step drained (machine_at all i 0 block_header out)
        ≡ (ok need_more_bytes, machine_at all i 0 block_header out)
  unfolding step step_block_header roll_back restore snapshot available_bits
  wait-header none =
      let short : leb 3 (0 + (length all - i) * 8) ≡ false = lt→leb_false _ _ (omega arith) in
      rw short refl

  pub wait-lengths :
      (is_final : Bool)
      → length all < i + 4
      → step drained (machine_at all i 5 (stored_align_and_len is_final) out)
        ≡ (ok need_more_bytes, machine_at all i 5 (stored_align_and_len is_final) out)
  unfolding step step_stored_align_and_len roll_back restore snapshot available_bits
      residual_bit_count
  wait-lengths is_final few =
      let short : leb 37 (5 + (length all - i) * 8) ≡ false = lt→leb_false _ _ (omega arith) in
      rw short refl

  pub wait-body :
      (is_final : Bool) (n : ℕ)
      → 0 < n
      → length all ≤ i
      → step drained (machine_at all i 0 (stored_body n is_final) out)
        ≡ (ok need_more_bytes, machine_at all i 0 (stored_body n is_final) out)
  unfolding step step_stored_body available_bits
  wait-body is_final n pos none =
      let some_left : (n == 0) ≡ false = ground arith in
      let nothing : ((0 + (length all - i) * 8) / 8 == 0) ≡ true = ground arith in
      rw (some_left, nothing) refl

  -- What is there of a body is taken.
  pub step-part :
      (is_final : Bool) (n m : ℕ) (b t : List ℕ)
      → 0 < m
      → m ≤ n
      → length b ≡ m
      → m ≡ min (length all - i) n
      → drop i all ≡ b ++ t
      → step drained (machine_at all i 0 (stored_body n is_final) out)
        ≡ (ok progress, machine_at all (i + m) 0 (stored_body (n - m) is_final) (out ++ b))
  unfolding step step_stored_body read_bytes on_reader available_bits
  step-part is_final n m b t pos le len part here =
      let size = length-drop {0} i all in
      let size' = ap length here ∙ length-append b t in
      let some_left : (n == 0) ≡ false = ground arith in
      let avail : (0 + (length all - i) * 8) / 8 ≡ length all - i = omega arith in
      let some_there : (length all - i == 0) ≡ false = ground (arith, size, size', len) in
      let from : i - 0 ≡ i = omega arith in
      let no_underflow : ltb i 0 ≡ false = le→ltb_false i 0 (omega arith) in
      let inside : leb (i + m) (length all) ≡ true = le→leb _ _ (omega (arith, size, size', len)) in
      let width : i + m - i ≡ m = omega arith in
      let taken : take m (b ++ t) ≡ b =
        ap (λ k. take k (b ++ t)) (sym len) ∙ take-append_self b t in
      rw (some_left, avail, some_there, sym part, no_underflow, from, inside, width, here, taken)
        refl

  pub step-finished :
      step drained (machine_at all i 0 finished out) ≡ (ok done, machine_at all i 0 finished out)
  unfolding step
  step-finished = refl
