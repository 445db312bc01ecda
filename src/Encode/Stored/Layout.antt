-- ===== src/Encode/Stored/Layout.antt =====
-- The bytes of stored blocks, as RFC 1951 lays them out.
use noflate.Base.{
  ℕ, ◌-◌, ◌≤◌, ◌≡◌, refl, sym, ap, ap₂, ◌∙◌, Bool, true, false, List, [], ◌∷◌, ◌++◌, append_assoc,
  append-nil, length, if◌then◌else◌, le_bytes_16, All, All-append,
}
use noflate.Symbol.{max_stored_block}

-- A block that starts on a byte boundary, with zeros for the padding behind its flag and type.
abbrev pub block_bytes : Bool → List ℕ → List ℕ
block_bytes is_final bytes =
    (if is_final then 1 else 0)
    ∷ (le_bytes_16 (length bytes) ++ (le_bytes_16 (65535 - length bytes) ++ bytes))

-- Blocks that are not the last.
abbrev pub blocks_bytes : List (List ℕ) → List ℕ
blocks_bytes [] = []
blocks_bytes (b ∷ bs) = block_bytes false b ++ blocks_bytes bs

abbrev pub concat : List (List ℕ) → List ℕ
concat [] = []
concat (b ∷ bs) = b ++ concat bs

abbrev pub FitsBlock : List ℕ → Type 0
FitsBlock b = length b ≤ max_stored_block

-- `encoded` is `chunk` in blocks that are not the last.
pub record IsBlocks (chunk encoded : List ℕ) : Type 0 where
  pub blocks : List (List ℕ)
  pub encoded_as : encoded ≡ blocks_bytes blocks
  pub joined : concat blocks ≡ chunk
  pub fit : All FitsBlock blocks

-- `encoded` is `chunk` in blocks of which the last is marked so.
pub record IsStream (chunk encoded : List ℕ) : Type 0 where
  pub before : List ℕ
  pub blocks_encoded : List ℕ
  pub last : List ℕ
  pub blocks : IsBlocks before blocks_encoded
  pub encoded_as : encoded ≡ blocks_encoded ++ block_bytes true last
  pub joined : before ++ last ≡ chunk
  pub last_fits : FitsBlock last

blocks_bytes-append :
    (bs cs : List (List ℕ)) → blocks_bytes (bs ++ cs) ≡ blocks_bytes bs ++ blocks_bytes cs
blocks_bytes-append [] cs = refl
blocks_bytes-append (b ∷ bs) cs =
    ap (λ l. block_bytes false b ++ l) (blocks_bytes-append bs cs)
    ∙ sym (append_assoc (block_bytes false b) (blocks_bytes bs) (blocks_bytes cs))

concat-append : (bs cs : List (List ℕ)) → concat (bs ++ cs) ≡ concat bs ++ concat cs
concat-append [] cs = refl
concat-append (b ∷ bs) cs =
    ap (λ l. b ++ l) (concat-append bs cs) ∙ sym (append_assoc b (concat bs) (concat cs))

pub nil-IsBlocks : IsBlocks [] []
nil-IsBlocks = record { blocks = []; encoded_as = refl; joined = refl; fit = tt }

pub block_bytes-IsBlocks : (b : List ℕ) → FitsBlock b → IsBlocks b (block_bytes false b)
block_bytes-IsBlocks b h = record {
  blocks = b ∷ [];
  encoded_as = sym (append-nil (block_bytes false b));
  joined = append-nil b;
  fit = (h, tt);
}

pub block_bytes-IsStream : (b : List ℕ) → FitsBlock b → IsStream b (block_bytes true b)
block_bytes-IsStream b h = record {
  before = [];
  blocks_encoded = [];
  last = b;
  blocks = nil-IsBlocks;
  encoded_as = refl;
  joined = refl;
  last_fits = h;
}

pub IsBlocks-append :
    {xs ys a b : List ℕ} → IsBlocks xs a → IsBlocks ys b → IsBlocks (xs ++ ys) (a ++ b)
IsBlocks-append p q = record {
  blocks = p.blocks ++ q.blocks;
  encoded_as = ap₂ ◌++◌ p.encoded_as q.encoded_as ∙ sym (blocks_bytes-append p.blocks q.blocks);
  joined = concat-append p.blocks q.blocks ∙ ap₂ ◌++◌ p.joined q.joined;
  fit = All-append FitsBlock p.blocks q.blocks p.fit q.fit;
}

pub IsBlocks-IsStream :
    {xs ys a b : List ℕ} → IsBlocks xs a → IsStream ys b → IsStream (xs ++ ys) (a ++ b)
IsBlocks-IsStream {xs} {ys} {a} {b} p q = record {
  before = xs ++ q.before;
  blocks_encoded = a ++ q.blocks_encoded;
  last = q.last;
  blocks = IsBlocks-append p q.blocks;
  encoded_as =
      ap (λ l. a ++ l) q.encoded_as
      ∙ sym (append_assoc a q.blocks_encoded (block_bytes true q.last));
  joined = append_assoc xs q.before q.last ∙ ap (λ l. xs ++ l) q.joined;
  last_fits = q.last_fits;
}
