-- ===== src/Decode/Copy/Repeats.antt =====
-- The copy of single bytes, and the repetition that it leaves at the end of the output.
use native.Mathlib.Decide.{dec_lt}
use noflate.Base.{
  ℕ, zero, suc, ◌+◌, ◌-◌, ◌*◌, ◌≤◌, ◌<◌, ◌≡◌, refl, sym, ap, ◌∙◌, List, [], ◌∷◌, ◌++◌, length,
  length-append, get_or, arith,
}

-- `len` bytes, each the one that stands `distance` before the end of what is there by then.
unfoldable pub copy_bytes : ℕ → ℕ → List ℕ → List ℕ
copy_bytes distance zero out = out
copy_bytes distance (suc n) out =
    copy_bytes distance n (out ++ get_or out (length out - distance) 0 ∷ [])

get_or-append_lt :
    (xs ys : List ℕ) (i d : ℕ) → i < length xs → get_or (xs ++ ys) i d ≡ get_or xs i d
get_or-append_lt [] ys i d h = absurd (omega arith)
get_or-append_lt (x ∷ xs) ys zero d h = refl
get_or-append_lt (x ∷ xs) ys (suc i) d h = get_or-append_lt xs ys i d (omega arith)

get_or-snoc : (xs : List ℕ) (x d : ℕ) → get_or (xs ++ x ∷ []) (length xs) d ≡ x
get_or-snoc [] x d = refl
get_or-snoc (y ∷ xs) x d = get_or-snoc xs x d

-- The byte `k` before the end.
abbrev pub back : List ℕ → ℕ → ℕ
back out k = get_or out (length out - k) 0

back-snoc_one : (out : List ℕ) (x : ℕ) → back (out ++ x ∷ []) 1 ≡ x
back-snoc_one out x =
    let e : length (out ++ x ∷ []) - 1 ≡ length out =
      omega (arith, length-append {0} out (x ∷ [])) in
    ap (λ i. get_or (out ++ x ∷ []) i 0) e ∙ get_or-snoc out x 0

back-snoc_suc :
    (out : List ℕ) (x k : ℕ) → 1 ≤ k → k ≤ length out → back (out ++ x ∷ []) (k + 1) ≡ back out k
back-snoc_suc out x k pos h =
    let e : length (out ++ x ∷ []) - (k + 1) ≡ length out - k =
      omega (arith, length-append {0} out (x ∷ [])) in
    ap (λ i. get_or (out ++ x ∷ []) i 0) e
    ∙ get_or-append_lt out (x ∷ []) (length out - k) 0 (omega arith)

-- The last `t` bytes repeat after `d`.
abbrev pub Repeats : ℕ → ℕ → List ℕ → Type 0
Repeats d t out = (k : ℕ) → 1 ≤ k → k + d ≤ t → back out k ≡ back out (k + d)

Repeats-snoc :
    (d t : ℕ) (out : List ℕ)
    → 1 ≤ d
    → t ≤ length out
    → d ≤ length out
    → Repeats d t out
    → Repeats d (t + 1) (out ++ back out d ∷ [])
Repeats-snoc d t out pos within far r k k_pos below = elim (dec_lt 1 k) [
  | no one ↦
      let e : k ≡ 1 = omega arith in
      rw e (
        back-snoc_one out (back out d)
        ∙ sym (back-snoc_suc out (back out d) d pos far)
        ∙ ap (back (out ++ back out d ∷ [])) (omega arith))
  | yes more ↦
      let e : k ≡ k - 1 + 1 = omega arith in
      ap (back (out ++ back out d ∷ [])) e
      ∙ back-snoc_suc out (back out d) (k - 1) (omega arith) (omega arith)
      ∙ r (k - 1) (omega arith) (omega arith)
      ∙ sym (back-snoc_suc out (back out d) (k - 1 + d) (omega arith) (omega arith))
      ∙ ap (back (out ++ back out d ∷ [])) (omega arith)
]

-- A multiple of the distance reaches the same byte.
back_multiple :
    (d m t : ℕ) (out : List ℕ) → 1 ≤ d → t ≡ d * suc m → Repeats d t out → back out d ≡ back out t
back_multiple d zero t out pos e r = ap (back out) (omega arith)
back_multiple d (suc m) t out pos e r =
    back_multiple d m (t - d) out pos (omega (arith, e)) (λ k p q. r k p (omega arith))
    ∙ r (t - d) (omega (arith, e)) (omega (arith, e))
    ∙ ap (back out) (omega (arith, e))

pub length-copy_bytes : (d n : ℕ) (out : List ℕ) → length (copy_bytes d n out) ≡ length out + n
unfolding copy_bytes
length-copy_bytes d zero out = omega arith
length-copy_bytes d (suc n) out =
    omega (
      arith,
      length-copy_bytes d n (out ++ back out d ∷ []),
      length-append {0} out (back out d ∷ []),
    )

pub copy_bytes-add :
    (d n k : ℕ) (out : List ℕ) → copy_bytes d (n + k) out ≡ copy_bytes d k (copy_bytes d n out)
unfolding copy_bytes
copy_bytes-add d zero k out = let e : 0 + k ≡ k = omega arith in ap (λ i. copy_bytes d i out) e
copy_bytes-add d (suc n) k out =
    let e : suc n + k ≡ suc (n + k) = omega arith in
    rw e (copy_bytes-add d n k (out ++ back out d ∷ []))

pub Repeats-copy_bytes :
    (d n t : ℕ) (out : List ℕ)
    → 1 ≤ d
    → t ≤ length out
    → d ≤ length out
    → Repeats d t out
    → Repeats d (t + n) (copy_bytes d n out)
unfolding copy_bytes
Repeats-copy_bytes d zero t out pos within far r k p q = r k p (omega arith)
Repeats-copy_bytes d (suc n) t out pos within far r k p q =
    let grown = length-append {0} out (back out d ∷ []) in
    Repeats-copy_bytes d n (t + 1) (out ++ back out d ∷ []) pos (omega arith) (omega arith)
      (Repeats-snoc d t out pos within far r) k p (omega arith)

pub copy_bytes_multiple :
    (d m t n : ℕ) (out : List ℕ)
    → 1 ≤ d
    → t ≡ d * suc m
    → t ≤ length out
    → d ≤ length out
    → Repeats d t out
    → copy_bytes d n out ≡ copy_bytes t n out
unfolding copy_bytes
copy_bytes_multiple d m t zero out pos e within far r = refl
copy_bytes_multiple d m t (suc n) out pos e within far r =
    let grown = length-append {0} out (back out d ∷ []) in
    copy_bytes_multiple d m t n (out ++ back out d ∷ []) pos e (omega arith) (omega arith)
      (λ k p q. Repeats-snoc d t out pos within far r k p (omega arith))
    ∙ ap (λ x. copy_bytes t n (out ++ x ∷ [])) (back_multiple d m t out pos e r)
