-- ===== src/Decode/Stream/Failure.antt =====
-- What `Decoder` of src/decode.rs does after a step that failed.
use noflate.Base.{
  ℕ, suc, ◌+◌, ◌-◌, ◌*◌, ◌≤◌, ◌≡◌, refl, ap, ◌∙◌, false, List, arith, length, length-drop, take,
  drop, le→leb,
}
use noflate.Error.{ok, err, panic, invalid_data, reserved_block_type}
use noflate.Buf
use noflate.Bit.View.{value}
use noflate.Bit.Reader.{Reader, available_bits, read_bit, read_bits}
use noflate.Bit.Reads.{stream, IsValid}
use noflate.Bit.Refine.{available_bits-eq-length, read_bits-IsRead}
use noflate.Decode.State.{Machine, block_header, transient, on_reader}
use noflate.Decode.Header.{step_block_header}
use noflate.Decode.Body.{step}
use noflate.Decode.Stream.{Decoder, machine, drive_fuel, feed}

-- The next two bits after the final-block bit are 11.
pub record IsReserved (r : Reader) : Type 0 where
  pub valid : IsValid r
  pub enough : 3 ≤ length (stream r)
  pub block_type : value (take 2 (drop 1 (stream r))) ≡ 3

module _ (s : Machine) (h : IsReserved s.reader) where
  step_block_header_reserved :
      ((step_block_header s).0 ≡ err (invalid_data reserved_block_type))
      × ((step_block_header s).1.state ≡ s.state)
  unfolding step_block_header read_bit on_reader
  step_block_header_reserved =
      let long : 3 ≤ available_bits s.reader =
        omega (arith, available_bits-eq-length s.reader, h.enough) in
      let first = read_bits-IsRead 1 s.reader h.valid (omega arith) (omega (arith, h.enough)) in
      let rest : length (stream (read_bits 1 s.reader).1) ≡ length (stream s.reader) - 1 =
        ap length first.rest ∙ length-drop 1 (stream s.reader) in
      let second =
        read_bits-IsRead 2 (read_bits 1 s.reader).1 first.valid (omega arith)
          (omega (arith, rest, h.enough)) in
      let two : (read_bits 2 (read_bits 1 s.reader).1).0 ≡ ok 3 =
        second.returns ∙ ap (λ l. ok (value (take 2 l))) first.rest ∙ ap ok h.block_type in
      rw (le→leb 3 (available_bits s.reader) long, first.returns, two) (refl, refl)

-- The decoder once `bytes` stand in its buffer.
abbrev pub with_input : List ℕ → Decoder → Decoder
with_input bytes d = record d { input = Buf.feed bytes d.input }

module _ (bytes : List ℕ) (d : Decoder) (running : d.finished ≡ false) where
  fuel_suc :
      drive_fuel (machine (with_input bytes d))
      ≡ suc (2 * available_bits (machine (with_input bytes d)).reader + 2)
  fuel_suc = omega arith

  feed_transient : d.state ≡ transient → (feed bytes d).0 ≡ panic
  unfolding feed step
  feed_transient stuck = rw (running, fuel_suc, stuck) refl

  feed_reserved :
      d.state ≡ block_header
      → IsReserved (machine (with_input bytes d)).reader
      → ((feed bytes d).0 ≡ err (invalid_data reserved_block_type))
        × ((feed bytes d).1.state ≡ transient)
        × ((feed bytes d).1.finished ≡ false)
  unfolding feed step
  feed_reserved start reserved =
      let failed =
        step_block_header_reserved (record (machine (with_input bytes d)) { state = transient })
          reserved in
      rw (running, fuel_suc, start, failed.0) (refl, failed.1, refl)

-- A running decoder at the start of a block, fed bytes that make the block type the reserved one,
-- gives the error of that type, and panics on the next feed, whatever is fed.
pub feed-reserved_block_type :
    (bytes more : List ℕ) (d : Decoder)
    → d.finished ≡ false
    → d.state ≡ block_header
    → IsReserved (machine (with_input bytes d)).reader
    → ((feed bytes d).0 ≡ err (invalid_data reserved_block_type))
      × ((feed more (feed bytes d).1).0 ≡ panic)
feed-reserved_block_type bytes more d running start reserved =
    let failed = feed_reserved bytes d running start reserved in
    (failed.0, feed_transient more (feed bytes d).1 failed.2 failed.1)
