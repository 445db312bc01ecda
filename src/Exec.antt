-- ===== src/Exec.antt =====
-- Methods on `&mut self` that return `Result`: the state passes through, and what a call changed
-- before it failed stays changed.
use noflate.Error.{Error, Result, ok, err, panic, out_of_fuel}

abbrev pub Exec {ℓ κ} : Type ℓ → Type κ → Type (ℓ ⊔ κ)
Exec S A = S → Result A × S

module _ {ℓ κ μ} {S : Type ℓ} {A : Type κ} {B : Type μ} where
  -- `?`: the rest of a method, after the outcome of a call and the state it left.
  abbrev pub and_then : Result A → S → (A → Exec S B) → Result B × S
  and_then (ok a) s f = f a s
  and_then (err e) s f = (err e, s)
  and_then panic s f = (panic, s)
  and_then out_of_fuel s f = (out_of_fuel, s)

  infixl 5 ◌>>=◌
  abbrev pub ◌>>=◌ : Exec S A → (A → Exec S B) → Exec S B
  ◌>>=◌ m f s = let (r, s') = m s in and_then r s' f

infixl 5 ◌>>◌
abbrev pub ◌>>◌ {ℓ κ} : {S : Type ℓ} {B : Type κ} → Exec S (Unit {0}) → Exec S B → Exec S B
m >> k = m >>= λ _. k

module _ {ℓ} {S : Type ℓ} where
  abbrev pub pure {κ} : {A : Type κ} → A → Exec S A
  pure a s = (ok a, s)

  abbrev pub raise {κ} : {A : Type κ} → Error → Exec S A
  raise e s = (err e, s)

  abbrev pub modify : (S → S) → Exec S (Unit {0})
  modify f s = (ok tt, f s)

  abbrev pub gets {κ} : {A : Type κ} → (S → A) → Exec S A
  gets f s = (ok (f s), s)

-- A method that returns the changed object, or fails and leaves it.
abbrev pub store_result {ℓ} : {S : Type ℓ} → Result S → Exec S (Unit {0})
store_result (ok s') s = (ok tt, s')
store_result (err e) s = (err e, s)
store_result panic s = (panic, s)
store_result out_of_fuel s = (out_of_fuel, s)

abbrev pub update {ℓ} : {S : Type ℓ} → (S → Result S) → Exec S (Unit {0})
update f s = store_result (f s) s

-- A call on a part of the state.
abbrev pub on_part {ℓ κ μ} :
    {S : Type ℓ} {P : Type κ} {A : Type μ} → (S → P) → (P → S → S) → Exec P A → Exec S A
on_part part put m s = let (x, p) = m (part s) in (x, put p s)
