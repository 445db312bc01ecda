-- ===== src/Deflate/Fixed.antt =====
-- `compress` and `decompress` of src/deflate.rs with fixed codes.
use noflate.Base.{
  ℕ, zero, suc, ◌+◌, ◌-◌, ◌*◌, ◌≤◌, ◌<◌, ◌≡◌, inl, inr, refl, sym, ap, ◌∙◌, Bool, true, false, List,
  [], ◌++◌, append_assoc, arith, length, length-append, drop, drop-append_self, IsBytes, ◌==◌, ◌&&◌,
}
use noflate.Error.{ok}
use noflate.Buf
use noflate.Buf.Queue
use noflate.Bit.View.{byte_bits}
use noflate.Encode.Options.{EncodeOptions, fixed}
use noflate.Encode.Fixed.{FixedStream}
use noflate.Encode.Stream as Encode
use noflate.Encode.Stream.Runs.{HasLimit}
use noflate.Encode.Stream.FixedRun.{feed-IsFixedRun, with_options-IsFixedRun, finish-FixedStream}
use noflate.Decode.Fixed.{FixedTables, fixed_tables}
use noflate.Decode.Stream as Decode
use noflate.Decode.Stream.FixedFeed.{IsDecoding, unread_bits, fed, feed-nil}
use noflate.Decode.Stream.StoredFeed.{new-IsAtBlock}
use noflate.Decode.Stream.FixedStart.{feed-outcome}
use noflate.Decode.Stream.FixedTaken.{advance-IsTaken}
use noflate.Decode.Stream.Taken.{advance-output}
use noflate.Deflate.Stored.{take_encoded_lem}
use noflate.Deflate.{compress_with, decompress, decompress_loop, take_decoded, stalled}

-- The loop at the end of a stream.
loop_ended :
    (fuel : ℕ) (out : List ℕ) (d : Decode.Decoder)
    → Decode.is_finished d ≡ true
    → (decompress_loop (suc fuel) out d).0 ≡ ok (out ++ Decode.output d)
unfolding decompress_loop take_decoded
loop_ended fuel out d ended =
    let (d', took, same, unread) = advance-output d in rw (took, same, ended) refl

module _ (f : FixedTables) (behind target : List ℕ) where
  -- A round of the loop within a stream.
  loop_round :
      (fuel : ℕ) (out : List ℕ) (d d' : Decode.Decoder)
      → Decode.advance (length (Decode.output d)) d ≡ ok d'
      → Decode.is_finished d' ≡ false
      → (Decode.feed [] d').0 ≡ ok tt
      → stalled (length (Decode.remaining_input d')) (Decode.feed [] d').1 ≡ false
      → decompress_loop (suc fuel) out d
        ≡ decompress_loop fuel (out ++ Decode.output d) (Decode.feed [] d').1
  unfolding decompress_loop take_decoded
  loop_round fuel out d d' took running again goes_on = rw (took, running, again, goes_on) refl

  not_stalled_ended :
      (n : ℕ) (d : Decode.Decoder) → Decode.is_finished d ≡ true → stalled n d ≡ false
  not_stalled_ended n d ended =
      rw ended (both (length (Decode.output d) == 0) (length (Decode.remaining_input d) == n))
    where
      both : (a b : Bool) → (a && (b && false)) ≡ false
      both true true = refl
      both true false = refl
      both false b = refl

  not_stalled_full :
      (n : ℕ) (d : Decode.Decoder) → 0 < length (Decode.output d) → stalled n d ≡ false
  not_stalled_full n d some_output =
      let other : (length (Decode.output d) == 0) ≡ false = ground arith in rw other refl

  -- The output behind what has been taken.
  output_behind :
      (d d' : Decode.Decoder) (put : List ℕ)
      → d.drained ≡ length d.output
      → d'.drained ≡ d.drained
      → d'.output ≡ d.output ++ put
      → Decode.output d' ≡ put
  unfolding Decode.output
  output_behind d d' put taken same grown =
      ap (λ k. drop k d'.output) (same ∙ taken)
      ∙ ap (drop (length d.output)) grown
      ∙ drop-append_self d.output put

  decompress_loop_lem :
      (fuel : ℕ) (gone out : List ℕ) (d : Decode.Decoder)
      → IsDecoding f behind gone target d
      → d.drained ≤ length d.output
      → out ++ Decode.output d ≡ gone ++ d.output
      → unread_bits d + 2 ≤ fuel
      → (decompress_loop fuel out d).0 ≡ ok target
  decompress_loop_lem zero gone out d p inside seen enough = absurd (omega arith)
  decompress_loop_lem (suc fuel) gone out d p inside seen enough =
      let (d', took, t) = advance-IsTaken f behind gone target d p inside in
      let q = t.decoding in
      let running : Decode.is_finished d' ≡ false = unfold Decode.is_finished in q.running in
      let (again, outcome) = feed-nil f behind t.gone' target d' q in
      let d'' = (Decode.feed [] d').1 in
      let before : out ++ Decode.output d ≡ t.gone' ++ d'.output = seen ∙ sym t.same in
      elim outcome [
        | inl e ↦
            let output : Decode.output d'' ≡ e.put =
              output_behind d' d'' e.put t.drained e.drained e.grown in
            ap (λ x. x.0)
              (loop_round fuel out d d' took running again (not_stalled_ended _ d'' e.ended))
            ∙ ap (λ k. (decompress_loop k (out ++ Decode.output d) d'').0) {x = fuel}
                {y = suc (fuel - 1)} (omega arith)
            ∙ loop_ended (fuel - 1) (out ++ Decode.output d) d'' e.ended
            ∙ ap ok (
                together (out ++ Decode.output d) t.gone' d' d'' e.put before output e.grown
                ∙ e.output)
        | inr y ↦
            let output : Decode.output d'' ≡ y.put =
              output_behind d' d'' y.put t.drained y.drained y.grown in
            let size = ap length y.grown ∙ length-append {0} d'.output y.put in
            ap (λ x. x.0)
              (loop_round fuel out d d' took running again (
                not_stalled_full _ d''
                  (omega (arith, ap length output, size, y.full, y.drained, t.drained))))
            ∙ decompress_loop_lem fuel t.gone' (out ++ Decode.output d) d'' y.again
                (omega (arith, size, y.drained, t.drained))
                (together (out ++ Decode.output d) t.gone' d' d'' y.put before output y.grown)
                (omega (arith, y.fewer (omega (arith, t.drained)), t.unread))
      ]
    where
      together :
          (out gone' : List ℕ) (d' d'' : Decode.Decoder) (put : List ℕ)
          → out ≡ gone' ++ d'.output
          → Decode.output d'' ≡ put
          → d''.output ≡ d'.output ++ put
          → out ++ Decode.output d'' ≡ gone' ++ d''.output
      together out gone' d' d'' put before output grown =
          ap (λ l. out ++ l) output
          ∙ ap (λ l. l ++ put) before
          ∙ append_assoc gone' d'.output put
          ∙ ap (λ l. gone' ++ l) (sym grown)

fresh_output :
    (all : List ℕ) (d : Decode.Decoder)
    → d.drained ≡ (fed all Decode.new).drained
    → Decode.output d ≡ d.output
unfolding Decode.new Decode.output
fresh_output all d e = ap (λ k. drop k d.output) e

fresh_drained :
    (all : List ℕ) (d : Decode.Decoder) → d.drained ≡ (fed all Decode.new).drained → d.drained ≡ 0
unfolding Decode.new
fresh_drained all d e = e

fresh_unread :
    (all : List ℕ)
    → (unread_bits (fed all Decode.new) ≡ 8 * length all)
      × (length (fed all Decode.new).output ≤ (fed all Decode.new).drained)
unfolding Decode.new
fresh_unread all =
    let size = ap length (Queue.get-feed all Buf.new Queue.new-IsValid).1 in
    (omega (arith, size, start all), omega arith)
  where
    start : (all : List ℕ) → length (Buf.get Buf.new ++ all) ≡ length all
    start all = unfold Buf.get Buf.new in refl

-- Decompression of bytes that hold a stream of blocks with fixed codes gives its content.
pub decompress-FixedStream :
    (f : FixedTables) (behind content all : List ℕ)
    → IsBytes all
    → FixedStream f behind [] content (byte_bits all)
    → decompress all ≡ ok content
unfolding decompress Decode.new Decode.remaining_input Buf.get Buf.new
decompress-FixedStream f behind content all bytes blocks =
    let (returns, outcome) =
      feed-outcome f behind content [] all Decode.new new-IsAtBlock bytes (omega arith) blocks in
    let d = (Decode.feed all Decode.new).1 in
    let fuel : 8 * length all + 2 ≡ suc (8 * length all + 1) = omega arith in
    elim outcome [
      | inl e ↦
          rw (decompress, returns, fuel)
            (loop_ended (8 * length all + 1) [] d e.ended
              ∙ ap ok (fresh_output all d e.drained ∙ e.output))
      | inr y ↦
          rw (decompress, returns)
            (decompress_loop_lem f behind content (8 * length all + 2) [] [] d y.again
              (omega (arith, fresh_drained all d y.drained)) (fresh_output all d y.drained)
              (omega (arith, (fresh_unread all).0, y.fewer (fresh_unread all).1)))
    ]

-- Compression with fixed codes never fails, and decompression of what it gives gives the bytes back:
-- literals and back-references, whatever the match finder has found, in any number of blocks. The
-- options set no limit on the input of a block, or a positive one.
pub decompress-compress_with_fixed :
    (options : EncodeOptions) (bytes : List ℕ)
    → options.block_kind ≡ fixed
    → HasLimit options.max_block_input_bytes
    → IsBytes bytes
    → (out : List ℕ) × (compress_with options bytes ≡ ok out) × (decompress out ≡ ok bytes)
unfolding compress_with Encode.feed Encode.with_options
decompress-compress_with_fixed options bytes kind limit are_bytes =
    let f = fixed_tables in
    let fresh = Encode.with_options options in
    let fed =
      feed-IsFixedRun f bytes [] [] fresh are_bytes
        (with_options-IsFixedRun f options kind limit) in
    let e = (Encode.feed bytes fresh).1 in
    let (returns, pad, blocks, out_bytes) = finish-FixedStream f bytes [] e fed.1 in
    let out = Encode.output (Encode.finish e).1 in
    rw (fed.0, returns)
      (out, take_encoded_lem _, decompress-FixedStream f pad bytes out out_bytes blocks)
