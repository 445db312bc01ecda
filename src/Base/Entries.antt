-- ===== src/Base/Entries.antt =====
-- Single entries of a list against its prefixes and suffixes.
use Prim.Native.Nat.{ℕ, zero, suc, ◌+◌, ◌≤◌, ◌<◌}
use mathlib.Core.Path.{◌≡◌, refl, sym, ap, ◌∙◌}
use mathlib.Core.List.{List, [], ◌∷◌, ◌++◌, append_assoc}
use native.Mathlib.Omega.{arith}
use mathlib.Core.Logic.{◌⊎◌, inl, inr}
use mathlib.Core.Option.{some}
use mathlib.Core.Path.{subst}
use noflate.Base.Lists.{All, length, get_elem?, set, get_or, take, drop, drop-append_le}
use noflate.Base.Words.{IsBytes}

module _ {ℓ} {A : Type ℓ} where
  pub get_or-drop :
      (n : ℕ) (xs : List A) (i : ℕ) (d : A) → get_or (drop n xs) i d ≡ get_or xs (n + i) d
  get_or-drop zero xs i d = let e : 0 + i ≡ i = omega arith in rw e refl
  get_or-drop (suc n) [] i d = refl
  get_or-drop (suc n) (x ∷ xs) i d =
      let e : suc n + i ≡ suc (n + i) = omega arith in rw e (get_or-drop n xs i d)

  pub get_or-take :
      (n : ℕ) (xs : List A) (i : ℕ) (d : A) → i < n → get_or (take n xs) i d ≡ get_or xs i d
  get_or-take zero xs i d h = absurd (omega arith)
  get_or-take (suc n) [] i d h = refl
  get_or-take (suc n) (x ∷ xs) zero d h = refl
  get_or-take (suc n) (x ∷ xs) (suc i) d h = get_or-take n xs i d (omega arith)

  -- A prefix that is one longer.
  pub take-suc_get :
      (i : ℕ) (xs : List A) (d : A)
      → i < length xs
      → take (suc i) xs ≡ take i xs ++ get_or xs i d ∷ []
  take-suc_get i [] d h = absurd (omega arith)
  take-suc_get zero (x ∷ xs) d h = refl
  take-suc_get (suc i) (x ∷ xs) d h = ap (λ l. x ∷ l) (take-suc_get i xs d (omega arith))

pub get_or_byte : (xs : List ℕ) (i : ℕ) → IsBytes xs → get_or xs i 0 < 256
get_or_byte [] i b = omega arith
get_or_byte (x ∷ xs) zero b = b.0
get_or_byte (x ∷ xs) (suc i) b = get_or_byte xs i b.1

-- What stands behind `gone` once `n` entries of a list are left out, when the list grows at its end.
pub grown_behind {ℓ} :
    {A : Type ℓ} (gone xs ys : List A) (n : ℕ)
    → n ≤ length xs
    → gone ++ drop n (xs ++ ys) ≡ (gone ++ drop n xs) ++ ys
grown_behind gone xs ys n h =
    ap (λ l. gone ++ l) (drop-append_le n xs ys h) ∙ sym (append_assoc gone (drop n xs) ys)

-- Where a list that goes on has at least the entries of another that goes on, it starts with it.
pub append_split {ℓ} :
    {A : Type ℓ} (xs f ys zs : List A)
    → xs ++ f ≡ ys ++ zs
    → length ys ≤ length xs
    → (t : List A) × (xs ≡ ys ++ t) × (t ++ f ≡ zs)
append_split xs f [] zs e h = (xs, refl, e)
append_split [] f (y ∷ ys) zs e h = absurd (omega arith)
append_split (x ∷ xs) f (y ∷ ys) zs e h =
    let (t, rest, more) = append_split xs f ys zs (ap (drop 1) e) (omega arith) in
    let same : x ≡ y = ap (λ l. get_or l 0 x) e in
    (t, ap (λ l. x ∷ l) rest ∙ ap (λ a. a ∷ (ys ++ t)) same, more)

module _ {ℓ} {A : Type ℓ} where
  pub get_elem?-set_same :
      (xs : List A) (i : ℕ) (v : A) → i < length xs → get_elem? (set xs i v) i ≡ some v
  get_elem?-set_same [] i v h = absurd (omega arith)
  get_elem?-set_same (x ∷ xs) zero v h = refl
  get_elem?-set_same (x ∷ xs) (suc i) v h = get_elem?-set_same xs i v (omega arith)

  pub get_elem?-set_other :
      (xs : List A) (i j : ℕ) (v : A) → ¬ (i ≡ j) → get_elem? (set xs i v) j ≡ get_elem? xs j
  get_elem?-set_other [] i j v h = refl
  get_elem?-set_other (x ∷ xs) zero zero v h = absurd (h refl)
  get_elem?-set_other (x ∷ xs) zero (suc j) v h = refl
  get_elem?-set_other (x ∷ xs) (suc i) zero v h = refl
  get_elem?-set_other (x ∷ xs) (suc i) (suc j) v h =
      get_elem?-set_other xs i j v (λ e. h (omega arith))

  -- An entry that is found is in range.
  pub get_elem?_lt : (xs : List A) (i : ℕ) (v : A) → get_elem? xs i ≡ some v → i < length xs
  get_elem?_lt [] i v h = cc
  get_elem?_lt (x ∷ xs) zero v h = omega arith
  get_elem?_lt (x ∷ xs) (suc i) v h = omega (arith, get_elem?_lt xs i v h)

  -- An entry of a list with one entry written is the one written or one that was there.
  pub get_elem?-set_cases :
      (xs : List A) (i j : ℕ) (v x : A)
      → get_elem? (set xs i v) j ≡ some x
      → ((i ≡ j) × (v ≡ x)) ⊎ (get_elem? xs j ≡ some x)
  get_elem?-set_cases [] i j v x h = cc
  get_elem?-set_cases (y ∷ xs) zero zero v x h = inl (refl, cc)
  get_elem?-set_cases (y ∷ xs) zero (suc j) v x h = inr h
  get_elem?-set_cases (y ∷ xs) (suc i) zero v x h = inr h
  get_elem?-set_cases (y ∷ xs) (suc i) (suc j) v x h = elim (get_elem?-set_cases xs i j v x h) [
    | inl e ↦ inl (omega (arith, e.0), e.1)
    | inr e ↦ inr e
  ]

pub All-get_elem? {ℓ κ} :
    {A : Type ℓ} (P : A → Type κ) (xs : List A) (i : ℕ) (x : A)
    → All P xs
    → get_elem? xs i ≡ some x
    → P x
All-get_elem? P [] i x a h = cc
All-get_elem? P (y ∷ xs) zero x a h = let e : y ≡ x = cc in subst P e a.0
All-get_elem? P (y ∷ xs) (suc i) x a h = All-get_elem? P xs i x a.1 h

pub All-split {ℓ κ} :
    {A : Type ℓ} (P : A → Type κ) (xs ys : List A) → All P (xs ++ ys) → All P xs × All P ys
All-split P [] ys h = (tt, h)
All-split P (x ∷ xs) ys h = let more = All-split P xs ys h.1 in ((h.0, more.0), more.1)
