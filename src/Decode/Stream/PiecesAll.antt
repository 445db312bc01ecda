-- ===== src/Decode/Stream/PiecesAll.antt =====
-- A whole stream of stored blocks fed to `Decoder` of src/decode.rs in pieces.
use noflate.Base.{
  ℕ, ◌<◌, ◌≡◌, inl, inr, refl, sym, ap, ap₂, ◌∙◌, true, List, [], ◌∷◌, ◌++◌, append_assoc,
  append-nil, arith, length, length-append, drop, All,
}
use noflate.Error.{ok}
use noflate.Exec.{Exec, ◌>>◌}
use noflate.Buf
use noflate.Buf.Queue
use noflate.Encode.Stored.{IsStream, concat}
use noflate.Decode.Stream.{Decoder, new, feed, is_finished, remaining_input, output}
use noflate.Decode.Stream.StoredPieces.{at_header}
use noflate.Decode.Stream.PiecesFeed.{IsWithin, IsFed, IsDone, feed-IsWithin}

-- The pieces, fed one after the other.
pub feed_pieces : List (List ℕ) → Exec Decoder (Unit {0})
feed_pieces [] d = (ok tt, d)
feed_pieces (p ∷ ps) d = (do feed p; feed_pieces ps) d

abbrev pub IsNonempty : List ℕ → Type 0
IsNonempty p = 0 < length p

feed_pieces_next :
    (p : List ℕ) (ps : List (List ℕ)) (d : Decoder)
    → (feed p d).0 ≡ ok tt
    → feed_pieces (p ∷ ps) d ≡ feed_pieces ps (feed p d).1
unfolding feed_pieces
feed_pieces_next p ps d e = rw e refl

IsFed-IsDone :
    {d d' d2 : Decoder} {bytes future rest : List ℕ} (f : IsFed d bytes future rest d')
    → IsDone d' f.bytes' [] [] d2
    → IsDone d bytes [] [] d2
IsFed-IsDone {d} {d'} {d2} f e = record {
  ended = e.ended;
  unread = e.unread;
  output =
      e.output
      ∙ ap (λ l. l ++ f.bytes') f.output
      ∙ append_assoc d.output f.put f.bytes'
      ∙ ap (λ l. d.output ++ l) f.joined;
  drained = e.drained ∙ f.drained;
}

-- A decoder within a stream of stored blocks, fed the rest of it in any pieces but empty ones, takes
-- them all, and is at the end with all the bytes put out.
pub feed_pieces-IsDone :
    (ps : List (List ℕ)) (p : List ℕ) (d : Decoder) (encoded bytes : List ℕ)
    → All IsNonempty ps
    → IsWithin d encoded bytes (p ++ concat ps) []
    → ((feed_pieces (p ∷ ps) d).0 ≡ ok tt) × IsDone d bytes [] [] (feed_pieces (p ∷ ps) d).1
feed_pieces-IsDone [] p d encoded bytes some_bytes w =
    let (fed, after) = feed-IsWithin d p encoded bytes [] [] w in
    let next = feed_pieces_next p [] d fed in
    elim after [
      | inl e ↦ rw next (unfold feed_pieces in (refl, e))
      | inr f ↦ absurd (
          omega (
            arith,
            ap length f.within.unread,
            length-append (remaining_input (feed p d).1) [],
            length-append f.encoded' [],
            f.short,
          ))
    ]
feed_pieces-IsDone (q ∷ qs) p d encoded bytes some_bytes w =
    let (fed, after) = feed-IsWithin d p encoded bytes (q ++ concat qs) [] w in
    let next = feed_pieces_next p (q ∷ qs) d fed in
    elim after [
      | inl e ↦ absurd (
          omega (
            arith,
            ap length e.unread,
            length-append (remaining_input (feed p d).1) (q ++ concat qs),
            length-append q (concat qs),
            some_bytes.0,
          ))
      | inr f ↦
          let rest =
            feed_pieces-IsDone qs q (feed p d).1 f.encoded' f.bytes' some_bytes.1 f.within in
          rw next (rest.0, IsFed-IsDone f rest.1)
    ]

-- A stream of stored blocks with zeros for padding, cut into pieces that are not empty and fed one
-- after the other to a new decoder, is taken whole: the decoder ends with exactly what the stream holds
-- put out, wherever the cuts are.
pub feed_pieces-IsStream :
    (p : List ℕ) (ps : List (List ℕ)) (bytes encoded : List ℕ)
    → IsStream bytes encoded
    → All IsNonempty ps
    → p ++ concat ps ≡ encoded
    → ((feed_pieces (p ∷ ps) new).0 ≡ ok tt)
      × (is_finished (feed_pieces (p ∷ ps) new).1 ≡ true)
      × (output (feed_pieces (p ∷ ps) new).1 ≡ bytes)
feed_pieces-IsStream p ps bytes encoded stream some_bytes cut =
    let (fed, e) =
      feed_pieces-IsDone ps p new encoded bytes some_bytes
        (new_within (p ++ concat ps) encoded bytes stream cut) in
    (fed, e.ended, put (feed_pieces (p ∷ ps) new).1 bytes e)
  where
    new_within :
        (future encoded bytes : List ℕ)
        → IsStream bytes encoded
        → future ≡ encoded
        → IsWithin new encoded bytes future []
    new_within future encoded bytes stream cut =
        unfold new in
        record {
          running = refl;
          no_buffer = refl;
          expects = at_header refl refl stream;
          input = Queue.new-IsValid;
          unread = unfold remaining_input Buf.get Buf.new in cut ∙ sym (append-nil encoded);
        }

    put : (d : Decoder) (bytes : List ℕ) → IsDone new bytes [] [] d → output d ≡ bytes
    put d bytes e = unfold output new in ap₂ drop e.drained e.output
