-- ===== src/Buf/Queue.antt =====
-- A buffer is the queue of its unread bytes: where it compacts does not show.
use noflate.Base.{
  ℕ, ◌+◌, ◌-◌, ◌≤◌, ◌<◌, ◌≡◌, refl, sym, ap, ◌∙◌, List, ◌++◌, length, length-append, length-drop,
  take, drop, drop-append_le, drop-drop, drop-le, ltb, ◌==◌, ◌&&◌, arith, take-append_self,
  Bool-cases, inl, inr, le→leb, lt→leb_false, ==_iff,
}
use noflate.Error.{ok, panic}
use noflate.Buf.{Buf, new, get, feed, advance, maybe_compact, compact_threshold}

pub record IsValid (b : Buf) : Type 0 where
  pub offset_in : b.offset ≤ length b.bytes

pub new-IsValid : IsValid new
unfolding new
new-IsValid = omega arith

compacted :
    (b : Buf)
    → get (record {
      bytes =
          take
            (length b.bytes - b.offset)
            (drop b.offset b.bytes ++ drop (length b.bytes - b.offset) b.bytes);
      offset = 0;
    })
      ≡ get b
unfolding get
compacted b =
    ap (λ n. take n (drop b.offset b.bytes ++ drop (length b.bytes - b.offset) b.bytes))
      (sym (length-drop b.offset b.bytes))
    ∙ take-append_self (drop b.offset b.bytes) (drop (length b.bytes - b.offset) b.bytes)

maybe_compact-keeps :
    (b : Buf) → IsValid b → IsValid (maybe_compact b) × (get (maybe_compact b) ≡ get b)
unfolding maybe_compact
maybe_compact-keeps b v =
    elim (Bool-cases (ltb compact_threshold (length b.bytes) && ltb 0 b.offset)) [
      | inl full ↦ rw full (record { offset_in = omega arith }, compacted b)
      | inr small ↦ rw small (v, refl)
    ]

-- Feeding a valid buffer appends to its queue, compaction included, and keeps it valid.
pub get-feed :
    (buf : List ℕ) (b : Buf) → IsValid b → IsValid (feed buf b) × (get (feed buf b) ≡ get b ++ buf)
unfolding feed get
get-feed buf b v =
    let kept =
      maybe_compact-keeps (record b { bytes = b.bytes ++ buf })
        (record { offset_in = omega (arith, length-append {0} b.bytes buf) }) in
    (kept.0, kept.1 ∙ drop-append_le b.offset b.bytes buf v.offset_in)

-- Advancing takes `n` bytes from the front of the queue when the queue has them, and keeps the buffer valid.
pub get-advance :
    (n : ℕ) (b : Buf)
    → IsValid b
    → n ≤ length (get b)
    → (b' : Buf) × (advance n b ≡ ok b') × IsValid b' × (get b' ≡ drop n (get b))
unfolding advance get
get-advance n b v h =
    let fits : b.offset + n ≤ length b.bytes = omega (arith, length-drop {0} b.offset b.bytes) in
    elim (Bool-cases (b.offset + n == length b.bytes)) [
      | inl all ↦ (
        new,
        unfold new in rw (le→leb _ _ fits, all),
        new-IsValid,
        unfold new in
            sym (
              drop-drop n b.offset b.bytes
              ∙ drop-le (b.offset + n) b.bytes (omega (arith, (==_iff _ _).0 all))),
      )
      | inr part ↦ (
        record b { offset = b.offset + n },
        rw (le→leb _ _ fits, part),
        record { offset_in = fits },
        sym (drop-drop n b.offset b.bytes),
      )
    ]

-- Advancing by more bytes than the queue has panics.
advance_panics : (n : ℕ) (b : Buf) → length (get b) < n → advance n b ≡ panic
unfolding advance get
advance_panics n b h =
    rw (
      lt→leb_false (b.offset + n) (length b.bytes)
        (omega (arith, length-drop {0} b.offset b.bytes)))
