-- ===== src/Prelude/Results.antt =====
-- Fallible code: `Result` and the `?` operator.
use mathlib.Core.Path.{◌≡◌, refl}
use mathlib.Core.Bool.{Bool, true, false}
use mathlib.Core.Option.{Option, none, some}

pub data Result {ℓ} (E A : Type ℓ) : Type ℓ where
  ok : A → Result E A
  err : E → Result E A

abbrev pub is_ok : {E A : Type 0} → Result E A → Bool
is_ok (ok value) = true
is_ok (err failure) = false

-- `Option::ok_or`
abbrev pub ok_or {ℓ} : {E A : Type ℓ} → Option A → E → Result E A
ok_or (some value) failure = ok value
ok_or none failure = err failure

-- `result.map_err(f)?` keeps the value and converts the error.
abbrev pub map_err : {E F A : Type 0} → (E → F) → Result E A → Result F A
map_err convert (ok value) = ok value
map_err convert (err failure) = err (convert failure)

-- `if bad { return Err(e) }`
abbrev pub fail_if : {E : Type 0} → Bool → E → Result E Unit
fail_if false failure = ok tt
fail_if true failure = err failure

module _ {ℓ} {E A : Type ℓ} where
  infixl 5 ◌>>=◌ ◌>>◌
  -- `first?`, and what the method does with its value.
  abbrev pub ◌>>=◌ : {B : Type ℓ} → Result E A → (A → Result E B) → Result E B
  (ok value) >>= rest = rest value
  (err failure) >>= rest = err failure

  abbrev pub ◌>>◌ : {B : Type ℓ} → Result E A → Result E B → Result E B
  first >> rest = first >>= λ _. rest

module _ {E A B : Type 0} (rest : A → Result E B) {result : B} where
  -- A method that ended well had its first part end well.
  pub >>=-ok :
      (first : Result E A)
      → (first >>= rest) ≡ ok result
      → (value : A) × (first ≡ ok value) × (rest value ≡ ok result)
  >>=-ok (err failure) ended = cc
  >>=-ok (ok value) ended = (value, refl, ended)
