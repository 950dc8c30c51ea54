-- ===== src/Prelude/Exec.antt =====
-- Methods that mutate an object and may fail. What a method wrote before it failed stays written,
-- so the state comes back beside an error too.
use multi_node_blockchain_kc.Prelude.Results.{Result, ok, err, is_ok}
use mathlib.Core.Path.{◌≡◌, refl}
use mathlib.Core.Bool.{true}
use native.Mathlib.Omega.{arith}

-- A `&mut self` method.
abbrev pub Exec : Type 0 → Type 0 → Type 0 → Type 0
Exec S E A = S → Result E A × S

module _ {S E : Type 0} where
  abbrev pub pure : {A : Type 0} → A → Exec S E A
  pure a s = (ok a, s)

  -- A fallible computation that writes nothing.
  abbrev pub lift : {A : Type 0} → Result E A → Exec S E A
  lift r s = (r, s)

  abbrev pub gets : {A : Type 0} → (S → A) → Exec S E A
  gets f s = (ok (f s), s)

  abbrev pub modify : (S → S) → Exec S E Unit
  modify f s = (ok tt, f s)

  abbrev pub continue : {A B : Type 0} → Result E A → (A → Exec S E B) → Exec S E B
  continue (ok a) f s = f a s
  continue (err e) f s = (err e, s)

infixl 5 ◌>>=◌ ◌>>◌
abbrev pub ◌>>=◌ : {S E A B : Type 0} → Exec S E A → (A → Exec S E B) → Exec S E B
◌>>=◌ m f s = let (r, s') = m s in continue r f s'

abbrev pub ◌>>◌ : {S E A B : Type 0} → Exec S E A → Exec S E B → Exec S E B
m >> n = m >>= λ _. n

module _ {S E A B : Type 0} where
  -- The rule for a bind: what holds of the first method's end decides what holds of the whole.
  pub continue_cases :
      (Q : Result E A × S → Type 0) (P : Result E B × S → Type 0) (r : Result E A)
      (f : A → Exec S E B) (s : S)
      → Q (r, s)
      → ((e : E) → Q (err e, s) → P (err e, s))
      → ((a : A) → Q (ok a, s) → P (f a s))
      → P (continue r f s)
  continue_cases Q P (ok a) f s q failed went_on = went_on a q
  continue_cases Q P (err e) f s q failed went_on = failed e q

  -- The rule for a check before the rest of a method.
  pub checked_cases :
      (P : Result E B × S → Type 0) (r : Result E A) {rest : Result E B × S} {s : S}
      → (is_ok r ≡ true → P rest)
      → ((e : E) → P (err e, s))
      → P (elim r [ ok _ ↦ rest | err e ↦ (err e, s) ])
  checked_cases P (ok a) passed failed = passed refl
  checked_cases P (err e) passed failed = failed e

  -- A method that ends well had its first part end well.
  pub >>=-ends :
      (m : Exec S E A) (f : A → Exec S E B) (s : S)
      → is_ok ((m >>= f) s).0 ≡ true
      → (a : A) × (t : S) × (m s ≡ (ok a, t)) × ((m >>= f) s ≡ f a t)
  >>=-ends m f s h = go (m s) refl
    where
      go :
          (out : Result E A × S)
          → m s ≡ out
          → (a : A) × (t : S) × (m s ≡ (ok a, t)) × ((m >>= f) s ≡ f a t)
      go (ok a, t) e = (a, t, e, cc)
      go (err x, t) e = absurd (ground (arith, e))

  pub lift-ends :
      (r : Result E A) (f : A → Exec S E B) (s : S)
      → is_ok ((lift r >>= f) s).0 ≡ true
      → (a : A) × (r ≡ ok a) × ((lift r >>= f) s ≡ f a s)
  lift-ends (ok a) f s h = (a, refl, refl)
  lift-ends (err x) f s h = cc
