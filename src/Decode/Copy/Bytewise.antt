-- ===== src/Decode/Copy/Bytewise.antt =====
-- The doubling copy against the copy of RFC 1951, one byte at a time.
use native.Mathlib.Decide.{dec_le, dec_lt}
use noflate.Base.{
  ℕ, zero, suc, ◌+◌, ◌-◌, ◌*◌, ◌≤◌, ◌<◌, min, ◌≡◌, ◌⊎◌, refl, sym, ap, ◌∙◌, false, List, [], ◌∷◌,
  ◌++◌, append-nil, snoc_append, length, length-append, take, drop, take-append_le, drop-append_le,
  drop-cons_get, length-drop, ◌==◌, arith, lt→ltb, le→leb, le→ltb_false, lt→leb_false,
}
use noflate.Error.{ok, err, invalid_data, too_long_backward_reference}
use noflate.Decode.Copy.{extend_from_within, copy_loop, copy_from_distance}
use noflate.Decode.Copy.Repeats.{
  back, copy_bytes, Repeats, length-copy_bytes, copy_bytes-add, Repeats-copy_bytes,
  copy_bytes_multiple,
}

-- Where the copy does not overlap it is one slice.
copy_bytes-slice :
    (t n : ℕ) (out : List ℕ)
    → n ≤ t
    → t ≤ length out
    → copy_bytes t n out ≡ out ++ take n (drop (length out - t) out)
unfolding copy_bytes
copy_bytes-slice t zero out h within = sym (append-nil out)
copy_bytes-slice t (suc n) out h within =
    let x = back out t in
    let grown = length-append {0} out (x ∷ []) in
    let next : length (out ++ x ∷ []) - t ≡ suc (length out - t) = omega arith in
    copy_bytes-slice t n (out ++ x ∷ []) (omega arith) (omega arith)
    ∙ ap (λ i. (out ++ x ∷ []) ++ take n (drop i (out ++ x ∷ []))) next
    ∙ ap (λ l. (out ++ x ∷ []) ++ take n l)
        (drop-append_le (suc (length out - t)) out (x ∷ []) (omega arith))
    ∙ ap (λ l. (out ++ x ∷ []) ++ l)
        (take-append_le n (drop (suc (length out - t)) out) (x ∷ [])
          (omega (arith, length-drop {0} (suc (length out - t)) out)))
    ∙ snoc_append out x (take n (drop (suc (length out - t)) out))
    ∙ ap (λ l. out ++ take (suc n) l) (sym (drop-cons_get (length out - t) out 0 (omega arith)))

copy_loop_stops :
    (fuel d len emitted : ℕ) (out : List ℕ) → len ≤ emitted → copy_loop fuel d len emitted out ≡ out
unfolding copy_loop
copy_loop_stops zero d len emitted out h = refl
copy_loop_stops (suc fuel) d len emitted out h = rw (le→ltb_false emitted len h)

-- A round whose slice is as long as asked for.
extend_from_within-copy_bytes :
    (d m t n : ℕ) (out : List ℕ)
    → 1 ≤ d
    → t ≡ d * suc m
    → d ≤ length out
    → t ≤ length out
    → Repeats d t out
    → n ≤ t
    → extend_from_within out (length out - t) n ≡ copy_bytes d n out
unfolding extend_from_within
extend_from_within-copy_bytes d m t n out pos e far within r h =
    ap (λ k. out ++ take k (drop (length out - t) out)) (omega arith)
    ∙ sym (copy_bytes-slice t n out h within)
    ∙ sym (copy_bytes_multiple d m t n out pos e within far r)

copy_loop-copy_bytes :
    (fuel d len emitted m : ℕ) (out : List ℕ)
    → 1 ≤ d
    → d + emitted ≡ d * suc m
    → d ≤ length out
    → d + emitted ≤ length out
    → Repeats d (d + emitted) out
    → len ≤ emitted + fuel
    → copy_loop fuel d len emitted out ≡ copy_bytes d (len - emitted) out
unfolding copy_loop
copy_loop-copy_bytes zero d len emitted m out pos e far within r enough =
    let none_left : len - emitted ≡ 0 = omega arith in rw none_left (unfold copy_bytes in refl)
copy_loop-copy_bytes (suc fuel) d len emitted m out pos e far within r enough =
    elim (dec_lt emitted len) [
      | no over ↦
          let none_left : len - emitted ≡ 0 = omega arith in
          rw (le→ltb_false emitted len (omega arith), none_left) (unfold copy_bytes in refl)
      | yes more ↦
          rw
            (
              lt→ltb emitted len more,
              extend_from_within-copy_bytes d m (d + emitted) (min (d + emitted) (len - emitted))
                  out pos e far within r (omega arith),
            )
            (elim (dec_le (len - emitted) (d + emitted)) [
              | yes last ↦
                  let all : min (d + emitted) (len - emitted) ≡ len - emitted = omega arith in
                  rw all (
                    copy_loop_stops fuel d len (emitted + (len - emitted))
                      (copy_bytes d (len - emitted) out) (omega arith))
              | no middle ↦
                  let all : min (d + emitted) (len - emitted) ≡ d + emitted = omega arith in
                  let split : len - emitted ≡ d + emitted + (len - (emitted + (d + emitted))) =
                    omega arith in
                  let grown = length-copy_bytes d (d + emitted) out in
                  rw all (
                    copy_loop-copy_bytes fuel d len (emitted + (d + emitted)) (2 * m + 1)
                      (copy_bytes d (d + emitted) out) pos (omega (arith, e)) (omega arith)
                      (omega arith)
                      (λ k p q.
                        Repeats-copy_bytes d (d + emitted) (d + emitted) out pos within far r k p
                          (omega arith))
                      (omega arith)
                    ∙ sym (
                        ap (λ i. copy_bytes d i out) split
                        ∙ copy_bytes-add d (d + emitted) (len - (emitted + (d + emitted))) out))
            ])
    ]

-- With a distance inside the output, the doubling copy gives what the copy of single bytes gives.
pub copy_from_distance-copy_bytes :
    (distance len : ℕ) (output : List ℕ)
    → 1 ≤ distance
    → distance ≤ length output
    → copy_from_distance distance len output ≡ ok (copy_bytes distance len output)
unfolding copy_from_distance
copy_from_distance-copy_bytes distance len output pos far =
    let not_zero : (distance == 0) ≡ false = ground arith in
    let whole : len - 0 ≡ len = omega arith in
    let once : distance + 0 ≡ distance * suc 0 = omega arith in
    let nothing_yet : Repeats distance (distance + 0) output = λ k p q. absurd (omega arith) in
    rw (not_zero, le→ltb_false (length output) distance far)
      (elim (dec_le len distance) [
        | yes short ↦ rw (le→leb len distance short) (
            ap ok (
              extend_from_within-copy_bytes distance 0 distance len output pos (omega arith) far far
                (λ k p q. absurd (omega arith)) short))
        | no overlap ↦ rw (lt→leb_false len distance (omega arith)) (
            ap ok (
              copy_loop-copy_bytes len distance len 0 0 output pos once far (omega arith)
                nothing_yet (omega arith)
              ∙ ap (λ n. copy_bytes distance n output) whole))
      ])

-- A distance of 0 or past the start of the output is an error, whatever the length.
copy_from_distance_too_far :
    (distance len : ℕ) (output : List ℕ)
    → (distance ≡ 0) ⊎ (length output < distance)
    → copy_from_distance distance len output
      ≡ err (invalid_data (too_long_backward_reference (length output) distance))
unfolding copy_from_distance
copy_from_distance_too_far distance len output h = ground arith
