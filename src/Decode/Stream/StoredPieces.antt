-- ===== src/Decode/Stream/StoredPieces.antt =====
-- The loop of `drive` of src/decode.rs on a part of a stream of stored blocks.
use noflate.Base.{
  ℕ, ◌-◌, ◌≡◌, refl, sym, ap, ◌∙◌, Bool, true, false, List, [], ◌∷◌, ◌++◌, append_assoc, append-nil,
  length, le_bytes_16, All,
}
use noflate.Encode.Stored.{block_bytes, blocks_bytes, concat, FitsBlock, IsStream}
use noflate.Decode.State.{DecodeState, block_header, stored_align_and_len, stored_body}

-- What stands behind a block: nothing behind the last.
abbrev pub Behind : Bool → List ℕ → List ℕ → Type 0
Behind true encoded bytes = (encoded ≡ []) × (bytes ≡ [])
Behind false encoded bytes = IsStream bytes encoded

-- The bytes to come, and what they hold, by the state of the decoder and the bits it holds back.
pub data Expects (state : DecodeState) (count : ℕ) (encoded bytes : List ℕ) : Type 0 where
  at_header :
      state ≡ block_header → count ≡ 0 → IsStream bytes encoded → Expects state count encoded bytes
  at_lengths :
      (is_final : Bool) (b encoded' bytes' : List ℕ)
      → state ≡ stored_align_and_len is_final
      → count ≡ 5
      → FitsBlock b
      → Behind is_final encoded' bytes'
      → encoded ≡ le_bytes_16 (length b) ++ (le_bytes_16 (65535 - length b) ++ (b ++ encoded'))
      → bytes ≡ b ++ bytes'
      → Expects state count encoded bytes
  at_body :
      (is_final : Bool) (b encoded' bytes' : List ℕ)
      → state ≡ stored_body (length b) is_final
      → count ≡ 0
      → Behind is_final encoded' bytes'
      → encoded ≡ b ++ encoded'
      → bytes ≡ b ++ bytes'
      → Expects state count encoded bytes

-- The first block of a stream, and what stands behind it.
pub record First (bytes encoded : List ℕ) : Type 0 where
  pub is_final : Bool
  pub b : List ℕ
  pub encoded' : List ℕ
  pub bytes' : List ℕ
  pub fits : FitsBlock b
  pub behind : Behind is_final encoded' bytes'
  pub encoded_as : encoded ≡ block_bytes is_final b ++ encoded'
  pub joined : bytes ≡ b ++ bytes'

blocks_bytes-First :
    (bs : List (List ℕ)) (last bytes encoded : List ℕ)
    → All FitsBlock bs
    → FitsBlock last
    → encoded ≡ blocks_bytes bs ++ block_bytes true last
    → concat bs ++ last ≡ bytes
    → First bytes encoded
blocks_bytes-First [] last bytes encoded fit last_fits e j = record {
  is_final = true;
  b = last;
  encoded' = [];
  bytes' = [];
  fits = last_fits;
  behind = (refl, refl);
  encoded_as = e ∙ sym (append-nil (block_bytes true last));
  joined = sym j ∙ sym (append-nil last);
}
blocks_bytes-First (b ∷ bs) last bytes encoded (fits, fit) last_fits e j = record {
  is_final = false;
  b = b;
  encoded' = blocks_bytes bs ++ block_bytes true last;
  bytes' = concat bs ++ last;
  fits = fits;
  behind = record {
    before = concat bs;
    blocks_encoded = blocks_bytes bs;
    last = last;
    blocks = record { blocks = bs; encoded_as = refl; joined = refl; fit = fit };
    encoded_as = refl;
    joined = refl;
    last_fits = last_fits;
  };
  encoded_as = e ∙ append_assoc (block_bytes false b) (blocks_bytes bs) (block_bytes true last);
  joined = sym j ∙ append_assoc b (concat bs) last;
}

pub IsStream-First : (bytes encoded : List ℕ) → IsStream bytes encoded → First bytes encoded
IsStream-First bytes encoded p =
    blocks_bytes-First p.blocks.blocks p.last bytes encoded p.blocks.fit p.last_fits
      (p.encoded_as ∙ ap (λ l. l ++ block_bytes true p.last) p.blocks.encoded_as)
      (ap (λ l. l ++ p.last) p.blocks.joined ∙ p.joined)
