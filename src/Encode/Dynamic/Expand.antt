-- ===== src/Encode/Dynamic/Expand.antt =====
-- What a decoder makes of the run-length codes of `build_bitwidth_codes` of src/encode.rs.
use noflate.Base.{
  ℕ, zero, suc, ◌+◌, ◌<◌, ◌≡◌, refl, sym, ap, ◌∙◌, false, List, [], ◌∷◌, ◌++◌, append_assoc,
  append-nil, arith, replicate, ◌==◌, if◌then◌else◌, lt→ltb, ltb, Option, none, some, length, ◌&&◌,
  ◌^◌,
}

abbrev pub last_or : ℕ → List ℕ → ℕ
last_or d [] = d
last_or d (x ∷ xs) = last_or x xs

-- The extra bits that follow a code in the header, by the format.
abbrev pub field_bits : ℕ → ℕ
field_bits code = if code == 16 then 2 else if code == 17 then 3 else if code == 18 then 7 else 0

-- What a code and the number in its extra bits make of the widths before it.
abbrev pub grow : ℕ → ℕ → List ℕ → Option (List ℕ)
grow code extra all =
    if ltb code 16
    then some (all ++ code ∷ [])
    else if code == 16
    then (if ltb 0 (length all) then some (all ++ replicate (extra + 3) (last_or 0 all)) else none)
    else if code == 17
    then some (all ++ replicate (extra + 3) 0)
    else if code == 18
    then some (all ++ replicate (extra + 11) 0)
    else none

-- A code that a decoder can read back: it has the extra bits that the format asks for, and the number
-- fits them.
abbrev pub expand_code : ℕ → ℕ → ℕ → List ℕ → Option (List ℕ)
expand_code code bits extra all =
    if (bits == field_bits code) && ltb extra (2 ^ bits) then grow code extra all else none

abbrev pub and_on : Option (List ℕ) → (List ℕ → Option (List ℕ)) → Option (List ℕ)
and_on none next = none
and_on (some all) next = next all

abbrev pub expand_codes : List (ℕ × ℕ × ℕ) → List ℕ → Option (List ℕ)
expand_codes [] all = some all
expand_codes ((code, bits, extra) ∷ codes) all =
    and_on (expand_code code bits extra all) (expand_codes codes)

pub expand_codes-append :
    (xs ys : List (ℕ × ℕ × ℕ)) (all : List ℕ)
    → expand_codes (xs ++ ys) all ≡ and_on (expand_codes xs all) (expand_codes ys)
expand_codes-append [] ys all = refl
expand_codes-append ((code, bits, extra) ∷ xs) ys all =
    step (expand_codes-append xs ys) (expand_code code bits extra all)
  where
    step :
        ((grown : List ℕ)
          → expand_codes (xs ++ ys) grown ≡ and_on (expand_codes xs grown) (expand_codes ys))
        → (o : Option (List ℕ))
        → and_on o (expand_codes (xs ++ ys)) ≡ and_on (and_on o (expand_codes xs)) (expand_codes ys)
    step rest none = refl
    step rest (some grown) = rest grown

-- Codes behind one that is read back.
pub expand_codes-cons :
    (all : List ℕ) (code bits extra : ℕ) (codes : List (ℕ × ℕ × ℕ)) {grown : List ℕ}
    → expand_code code bits extra all ≡ some grown
    → expand_codes ((code, bits, extra) ∷ codes) all ≡ expand_codes codes grown
expand_codes-cons all code bits extra codes e = ap (λ o. and_on o (expand_codes codes)) e

replicate_add : (a b x : ℕ) → replicate a x ++ replicate b x ≡ replicate (a + b) x
replicate_add zero b x = ap (λ n. replicate n x) {x = b} {y = 0 + b} (omega arith)
replicate_add (suc a) b x =
    let e : suc a + b ≡ suc (a + b) = omega arith in
    ap (λ l. x ∷ l) (replicate_add a b x) ∙ ap (λ n. replicate n x) (sym e)

pub two_parts :
    (all : List ℕ) (a b n x : ℕ)
    → a + b ≡ n
    → (all ++ replicate a x) ++ replicate b x ≡ all ++ replicate n x
two_parts all a b n x e =
    append_assoc all (replicate a x) (replicate b x)
    ∙ ap (λ l. all ++ l) (replicate_add a b x ∙ ap (λ k. replicate k x) e)

pub expand_code_plain :
    (width : ℕ) (all : List ℕ) → width < 16 → expand_code width 0 0 all ≡ some (all ++ width ∷ [])
expand_code_plain width all small =
    let a : (width == 16) ≡ false = ground arith in
    let b : (width == 17) ≡ false = ground arith in
    let c : (width == 18) ≡ false = ground arith in rw (a, b, c, lt→ltb width 16 small) refl

-- The codes of runs, with numbers that fit.
pub expand_code_zeros :
    (extra : ℕ) (all : List ℕ)
    → extra < 8
    → expand_code 17 3 extra all ≡ some (all ++ replicate (extra + 3) 0)
expand_code_zeros extra all fits = rw (lt→ltb extra (2 ^ 3) fits) refl

pub expand_code_many_zeros :
    (extra : ℕ) (all : List ℕ)
    → extra < 128
    → expand_code 18 7 extra all ≡ some (all ++ replicate (extra + 11) 0)
expand_code_many_zeros extra all fits = rw (lt→ltb extra (2 ^ 7) fits) refl

pub expand_code_repeat :
    (extra : ℕ) (all : List ℕ)
    → extra < 4
    → 0 < length all
    → expand_code 16 2 extra all ≡ some (all ++ replicate (extra + 3) (last_or 0 all))
expand_code_repeat extra all fits some_widths =
    rw (lt→ltb extra (2 ^ 2) fits, lt→ltb 0 (length all) some_widths) refl

-- Widths that are put out one by one.
pub expand_codes-replicate :
    (n width : ℕ) (all : List ℕ)
    → width < 16
    → expand_codes (replicate n (width, 0, 0)) all ≡ some (all ++ replicate n width)
expand_codes-replicate zero width all small = ap some (sym (append-nil all))
expand_codes-replicate (suc n) width all small =
    expand_codes-cons all width 0 0 (replicate n (width, 0, 0)) (expand_code_plain width all small)
    ∙ expand_codes-replicate n width (all ++ width ∷ []) small
    ∙ ap some (append_assoc all (width ∷ []) (replicate n width))
