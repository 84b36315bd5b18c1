-- ===== src/Propeller/Action.antt =====
-- Code of the service that may fail and changes the state `W` on the way: a change stays when a
-- later step fails. The push service fails with a `PropellerError`, a gRPC handler with a status.
use payment_processing.Common.{
  ◌≡◌, refl, sym, ap, ◌∙◌, ◌⊎◌, inl, inr, Bool, Result, ok, err, if◌then◌else◌,
}
use payment_processing.Propeller.Error.{PropellerError}

abbrev pub Fallible : Type 0 → Type 0 → Type 0 → Type 0
Fallible E W A = W → Result E A × W

abbrev pub Action : Type 0 → Type 0 → Type 0
Action = Fallible PropellerError

module _ {E W : Type 0} where
  -- The step behind a result, which an error skips.
  abbrev pub after : {A B : Type 0} → Result E A × W → (A → Fallible E W B) → Result E B × W
  after (ok a, w) f = f a w
  after (err e, w) f = (err e, w)

  infixl 5 ◌>>=◌ ◌>>◌
  abbrev pub ◌>>=◌ : {A B : Type 0} → Fallible E W A → (A → Fallible E W B) → Fallible E W B
  m >>= f = λ w. after (m w) f

  abbrev pub ◌>>◌ : {A B : Type 0} → Fallible E W A → Fallible E W B → Fallible E W B
  m >> k = m >>= λ _. k

  abbrev pub give : {A : Type 0} → A → Fallible E W A
  give a w = (ok a, w)

  abbrev pub fail : {A : Type 0} → E → Fallible E W A
  fail e w = (err e, w)

  -- An early return with an error.
  abbrev pub bail_if : Bool → E → Fallible E W (Unit {0})
  bail_if test e w = (if test then err e else ok tt, w)

  pub outcome :
      {A : Type 0} (r : Result E A × W)
      → ((a : A) × (w : W) × (r ≡ (ok a, w))) ⊎ ((e : E) × (w : W) × (r ≡ (err e, w)))
  outcome (ok a, w) = inl (a, w, refl)
  outcome (err e, w) = inr (e, w, refl)

  -- What a chain does behind a step whose outcome is known.
  pub past_ok :
      {A B : Type 0} {r : Result E A × W} {a : A} {w : W} (f : A → Fallible E W B)
      {end : Result E B × W}
      → r ≡ (ok a, w)
      → after r f ≡ end
      → f a w ≡ end
  past_ok f e h = sym (ap (λ r. after r f) e) ∙ h

  pub past_err :
      {A B : Type 0} {r : Result E A × W} {e : E} {w : W} (f : A → Fallible E W B)
      {end : Result E B × W}
      → r ≡ (err e, w)
      → after r f ≡ end
      → (err e, w) ≡ end
  past_err f e h = sym (ap (λ r. after r f) e) ∙ h
