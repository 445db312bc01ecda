-- ===== src/Lz77/Reach.antt =====
-- How far the tokens of src/lz77.rs reach back, and what the decoder makes of them where it has kept
-- the window only.
use noflate.Base.{
  ℕ, zero, suc, ◌+◌, ◌-◌, ◌≤◌, ◌≡◌, refl, sym, ap, ◌∙◌, min, List, [], ◌∷◌, ◌++◌, append_assoc,
  append-nil, length, length-append, get_or, All, IsByte, arith,
}
use noflate.Symbol.{window_size, min_match, max_match}
use noflate.Decode.Copy.Repeats.{copy_bytes, length-copy_bytes}
use noflate.Lz77.{Lz77Code, literal, pointer}

-- What the decoder makes of tokens, behind what it has put out.
abbrev pub expand : List Lz77Code → List ℕ → List ℕ
expand [] out = out
expand (literal x ∷ ts) out = expand ts (out ++ x ∷ [])
expand (pointer len distance ∷ ts) out = expand ts (copy_bytes distance len out)

-- The limits of the format.
abbrev pub IsToken : Lz77Code → Type 0
IsToken (literal x) = IsByte x
IsToken (pointer len distance) =
    (min_match ≤ len) × (len ≤ max_match) × (1 ≤ distance) × (distance ≤ window_size)

abbrev pub token_len : Lz77Code → ℕ
token_len (literal x) = 1
token_len (pointer len distance) = len

-- A token copies from within the `have` bytes before it.
abbrev pub ReachesBack : Lz77Code → ℕ → Type 0
ReachesBack (literal x) have = Unit
ReachesBack (pointer len distance) have = distance ≤ have

abbrev pub Reaches : List Lz77Code → ℕ → Type 0
Reaches [] have = Unit
Reaches (t ∷ ts) have = ReachesBack t have × Reaches ts (have + token_len t)

pub Reaches-more :
    (ts : List Lz77Code) (have more : ℕ) → have ≤ more → Reaches ts have → Reaches ts more
Reaches-more [] have more h reach = tt
Reaches-more (literal x ∷ ts) have more h reach =
    (tt, Reaches-more ts (have + 1) (more + 1) (omega arith) reach.1)
Reaches-more (pointer len distance ∷ ts) have more h reach =
    (omega (arith, reach.0), Reaches-more ts (have + len) (more + len) (omega arith) reach.1)

-- Of `have` bytes, the last ones that a token can reach are there.
abbrev pub HasWindow : ℕ → List ℕ → Type 0
HasWindow have out = min have window_size ≤ length out

pub ReachesBack-length :
    (t : Lz77Code) (have : ℕ) (out : List ℕ)
    → IsToken t
    → HasWindow have out
    → ReachesBack t have
    → ReachesBack t (length out)
ReachesBack-length (literal x) have out limits kept h = tt
ReachesBack-length (pointer len distance) have out limits kept h = omega (arith, limits.3)

pub length-expand_one :
    (t : Lz77Code) (out : List ℕ) → length (expand (t ∷ []) out) ≡ length out + token_len t
length-expand_one (literal x) out = length-append out (x ∷ [])
length-expand_one (pointer len distance) out = length-copy_bytes distance len out

pub expand_first :
    (t : Lz77Code) (ts : List Lz77Code) (out : List ℕ)
    → expand (t ∷ ts) out ≡ expand ts (expand (t ∷ []) out)
expand_first (literal x) ts out = refl
expand_first (pointer len distance) ts out = refl

get_or-append_add : (xs ys : List ℕ) (i : ℕ) → get_or (xs ++ ys) (length xs + i) 0 ≡ get_or ys i 0
get_or-append_add [] ys i = ap (λ k. get_or ys k 0) (omega arith)
get_or-append_add (x ∷ xs) ys i =
    let e : length (x ∷ xs) + i ≡ suc (length xs + i) = omega arith in
    rw e (get_or-append_add xs ys i)

-- A copy from within `out` does not look further back.
copy_bytes-behind :
    (distance n : ℕ) (gone out : List ℕ)
    → 1 ≤ distance
    → distance ≤ length out
    → copy_bytes distance n (gone ++ out) ≡ gone ++ copy_bytes distance n out
unfolding copy_bytes
copy_bytes-behind distance zero gone out pos far = refl
copy_bytes-behind distance (suc n) gone out pos far =
    let byte = get_or out (length out - distance) 0 in
    let from : length (gone ++ out) - distance ≡ length gone + (length out - distance) =
      omega (arith, length-append gone out) in
    let same : get_or (gone ++ out) (length (gone ++ out) - distance) 0 ≡ byte =
      ap (λ i. get_or (gone ++ out) i 0) from
      ∙ get_or-append_add gone out (length out - distance) in
    ap (λ x. copy_bytes distance n ((gone ++ out) ++ x ∷ [])) same
    ∙ ap (copy_bytes distance n) (append_assoc gone out (byte ∷ []))
    ∙ copy_bytes-behind distance n gone (out ++ byte ∷ []) pos
        (omega (arith, length-append out (byte ∷ [])))

expand_one-behind :
    (t : Lz77Code) (gone out : List ℕ)
    → IsToken t
    → ReachesBack t (length out)
    → expand (t ∷ []) (gone ++ out) ≡ gone ++ expand (t ∷ []) out
expand_one-behind (literal x) gone out limits h = append_assoc gone out (x ∷ [])
expand_one-behind (pointer len distance) gone out limits h =
    copy_bytes-behind distance len gone out limits.2 h

pub HasWindow-expand_one :
    (t : Lz77Code) (have : ℕ) (out : List ℕ)
    → HasWindow have out
    → HasWindow (have + token_len t) (expand (t ∷ []) out)
HasWindow-expand_one t have out kept = omega (arith, length-expand_one t out)

-- Tokens give the same behind what is kept as behind all that was put out.
pub expand-behind :
    (ts : List Lz77Code) (have : ℕ) (gone out : List ℕ)
    → All IsToken ts
    → Reaches ts have
    → HasWindow have out
    → expand ts (gone ++ out) ≡ gone ++ expand ts out
expand-behind [] have gone out limits reach kept = refl
expand-behind (t ∷ ts) have gone out limits reach kept =
    let near = ReachesBack-length t have out limits.0 kept reach.0 in
    expand_first t ts (gone ++ out)
    ∙ ap (expand ts) (expand_one-behind t gone out limits.0 near)
    ∙ expand-behind ts (have + token_len t) gone (expand (t ∷ []) out) limits.1 reach.1
        (HasWindow-expand_one t have out kept)
    ∙ ap (λ l. gone ++ l) (sym (expand_first t ts out))

copy_bytes-after :
    (distance n : ℕ) (out : List ℕ) → (put : List ℕ) × (copy_bytes distance n out ≡ out ++ put)
unfolding copy_bytes
copy_bytes-after distance zero out = ([], sym (append-nil out))
copy_bytes-after distance (suc n) out =
    let x = get_or out (length out - distance) 0 in
    let (put, e) = copy_bytes-after distance n (out ++ x ∷ []) in
    (x ∷ put, e ∙ append_assoc out (x ∷ []) put)

-- Tokens go on with the output.
pub expand-after :
    (ts : List Lz77Code) (out : List ℕ) → (put : List ℕ) × (expand ts out ≡ out ++ put)
expand-after [] out = ([], sym (append-nil out))
expand-after (literal x ∷ ts) out =
    let (put, e) = expand-after ts (out ++ x ∷ []) in (x ∷ put, e ∙ append_assoc out (x ∷ []) put)
expand-after (pointer len distance ∷ ts) out =
    let (copied, e) = copy_bytes-after distance len out in
    let (put, e') = expand-after ts (copy_bytes distance len out) in
    (copied ++ put, e' ∙ ap (λ l. l ++ put) e ∙ append_assoc out copied put)
