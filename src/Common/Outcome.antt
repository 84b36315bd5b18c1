-- ===== src/Common/Outcome.antt =====
-- `Result` with its error type, and the `?` operator as a bind.
use mathlib.Core.Path.{◌≡◌, refl, ap}
use mathlib.Core.Logic.{◌⊎◌, inl, inr}
use mathlib.Core.Option.{Option, none, some}

pub data Result {ℓ} (E A : Type ℓ) : Type ℓ where
  ok : A → Result E A
  err : E → Result E A

module _ {ℓ} {E : Type ℓ} where
  infixl 5 ◌>>=◌ ◌>>◌
  abbrev pub ◌>>=◌ : {A B : Type ℓ} → Result E A → (A → Result E B) → Result E B
  ok a >>= f = f a
  err e >>= f = err e

  abbrev pub ◌>>◌ : {A B : Type ℓ} → Result E A → Result E B → Result E B
  m >> k = m >>= λ _. k

  -- `Option::ok_or_else`
  abbrev pub ok_or : {A : Type ℓ} → Option A → E → Result E A
  ok_or none e = err e
  ok_or (some a) e = ok a

  -- `Result::map_err`
  abbrev pub map_err : {F A : Type ℓ} → (E → F) → Result E A → Result F A
  map_err f (ok a) = ok a
  map_err f (err e) = err (f e)

  pub Result-cases :
      {A : Type ℓ} (r : Result E A) → ((a : A) × (r ≡ ok a)) ⊎ ((e : E) × (r ≡ err e))
  Result-cases (ok a) = inl (a, refl)
  Result-cases (err e) = inr (e, refl)

  -- What a chain of fallible steps has passed when it succeeds.
  pub bind_ok :
      {A B : Type ℓ} (m : Result E A) (f : A → Result E B) (b : B)
      → (m >>= f) ≡ ok b
      → (a : A) × (m ≡ ok a) × (f a ≡ ok b)
  bind_ok (ok a) f b h = (a, refl, h)
  bind_ok (err e) f b h = cc

  pub given_ok :
      {A B : Type ℓ} (o : Option A) (e : E) (f : A → Result E B) (b : B)
      → (ok_or o e >>= f) ≡ ok b
      → (a : A) × (o ≡ some a) × (f a ≡ ok b)
  given_ok none e f b h = cc
  given_ok (some a) e f b h = (a, refl, h)

  abbrev or_given : {A : Type ℓ} → A → Result E A → A
  or_given given (ok a) = a
  or_given given (err e) = given

  pub ok_injective : {A : Type ℓ} (a b : A) → Path (Result E A) (ok a) (ok b) → a ≡ b
  ok_injective a b h = ap (or_given a) h
