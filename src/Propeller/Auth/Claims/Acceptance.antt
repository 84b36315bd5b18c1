-- ===== src/Propeller/Auth/Claims/Acceptance.antt =====
-- Which claims `AuthService::validate_claims` accepts.
use payment_processing.Common.{
  ℕ, ◌+◌, ◌^◌, ◌<◌, ◌≤◌, ◌≡◌, refl, ◌↔◌, true, String, ap, sym, subst, inl, inr, Bool-cases,
  unwrap_or, Option, none, some, ok, arith,
}
use payment_processing.Common.Text.{eq_iff, eq_refl}
use payment_processing.Propeller.Config.{JwtConfig}
use payment_processing.Propeller.Auth.Claims.{
  Value, null, bool, number, string, array, object, Values, nil, cons, JwtClaims, is_string,
  any_string, aud_matches, is_issuer, validate_claims, not_before, not_expired, add_usize,
}

-- The token is active, and has not expired, at a time within the allowed skew.
abbrev pub IsActive : Option ℕ → ℕ → ℕ → Type 0
IsActive none now skew = Unit
IsActive (some nbf) now skew = nbf ≤ now + skew

abbrev pub IsUnexpired : Option ℕ → ℕ → ℕ → Type 0
IsUnexpired none now skew = ⊥
IsUnexpired (some exp) now skew = now ≤ exp + skew

-- The time stands in a `usize`, also with the skew added.
abbrev pub Fits : Option ℕ → ℕ → Type 0
Fits none skew = Unit
Fits (some time) skew = time + skew < 2 ^ 64

exact_sum : (a b : ℕ) → a + b < 2 ^ 64 → add_usize a b ≡ a + b
exact_sum a b h = omega arith

IsActive-of_not_before :
    (nbf : Option ℕ) (now skew : ℕ)
    → Fits (some now) skew
    → not_before nbf now skew ≡ ok tt
    → IsActive nbf now skew
IsActive-of_not_before none now skew f h = tt
IsActive-of_not_before (some nbf) now skew f h = ground (arith, exact_sum now skew f)

IsUnexpired-of_not_expired :
    (exp : Option ℕ) (now skew : ℕ)
    → Fits exp skew
    → not_expired exp now skew ≡ ok tt
    → IsUnexpired exp now skew
IsUnexpired-of_not_expired none now skew f h = ground arith
IsUnexpired-of_not_expired (some exp) now skew f h = ground (arith, exact_sum exp skew f)

not_before-active :
    (nbf : Option ℕ) (now skew : ℕ)
    → Fits (some now) skew
    → IsActive nbf now skew
    → not_before nbf now skew ≡ ok tt
not_before-active none now skew f h = refl
not_before-active (some nbf) now skew f h = ground (arith, exact_sum now skew f)

not_expired-unexpired :
    (exp : Option ℕ) (now skew : ℕ)
    → Fits exp skew
    → IsUnexpired exp now skew
    → not_expired exp now skew ≡ ok tt
not_expired-unexpired none now skew f h = absurd h
not_expired-unexpired (some exp) now skew f h = ground (arith, exact_sum exp skew f)

-- The text is one of the values of an array.
pub data Lists (text : String) : Values → Type 0 where
  first : (vs : Values) → Lists text (cons (string text) vs)
  later : (v : Value) (vs : Values) → Lists text vs → Lists text (cons v vs)

-- The audience is the text, or an array that lists it.
pub data IsFor (audience : String) : Option Value → Type 0 where
  alone : IsFor audience (some (string audience))
  among : (vs : Values) → Lists audience vs → IsFor audience (some (array vs))

abbrev text_or : String → Value → String
text_or other (string t) = t
text_or other _ = other

is_string_iff : (text : String) (v : Value) → (is_string text v ≡ true) ↔ (v ≡ string text)
is_string_iff text (string t) =
    (λ h. ap string ((eq_iff t text).0 h), λ h. (eq_iff t text).1 (ap (text_or t) h))
is_string_iff text null = (λ h. cc, λ h. cc)
is_string_iff text (bool b) = (λ h. cc, λ h. cc)
is_string_iff text (number n) = (λ h. cc, λ h. cc)
is_string_iff text (array vs) = (λ h. cc, λ h. cc)
is_string_iff text (object fs) = (λ h. cc, λ h. cc)

Lists-of_any_string : (text : String) (vs : Values) → any_string text vs ≡ true → Lists text vs
Lists-of_any_string text nil h = cc
Lists-of_any_string text (cons v vs) h = elim (Bool-cases (is_string text v)) [
  | inl e ↦ subst (λ x. Lists text (cons x vs)) (sym ((is_string_iff text v).0 e)) (first vs)
  | inr e ↦ later v vs (Lists-of_any_string text vs (ground arith))
]

any_string-Lists : (text : String) {vs : Values} → Lists text vs → any_string text vs ≡ true
any_string-Lists text (first vs) = rw (eq_refl text) refl
any_string-Lists text (later v vs m) = let rest = any_string-Lists text m in ground arith

IsFor-of_aud_matches :
    (aud : Option Value) (audience : String) → aud_matches aud audience ≡ true → IsFor audience aud
unfolding aud_matches
IsFor-of_aud_matches none audience h = cc
IsFor-of_aud_matches (some (string t)) audience h =
    subst (λ x. IsFor audience (some (string x))) (sym ((eq_iff t audience).0 h)) alone
IsFor-of_aud_matches (some (array vs)) audience h = among vs (Lists-of_any_string audience vs h)
IsFor-of_aud_matches (some null) audience h = cc
IsFor-of_aud_matches (some (bool b)) audience h = cc
IsFor-of_aud_matches (some (number n)) audience h = cc
IsFor-of_aud_matches (some (object fs)) audience h = cc

aud_matches-IsFor :
    {aud : Option Value} (audience : String) → IsFor audience aud → aud_matches aud audience ≡ true
unfolding aud_matches
aud_matches-IsFor audience alone = eq_refl audience
aud_matches-IsFor audience (among vs m) = any_string-Lists audience m

is_issuer_iff :
    (iss : Option String) (issuer : String) → (is_issuer iss issuer ≡ true) ↔ (iss ≡ some issuer)
is_issuer_iff none issuer = (λ h. cc, λ h. cc)
is_issuer_iff (some iss) issuer = (
  (λ h. ap some ((eq_iff iss issuer).0 h)),
  (λ h. (eq_iff iss issuer).1 (ap (λ o. unwrap_or o iss) h)),
)

-- If neither the time nor the expiry comes to 2 ^ 64 with the skew added, `validate_claims` accepts
-- exactly the claims whose issuer is the configured one, whose audience is the configured one or an
-- array that lists it, and that are active, have an expiry, and have not expired, all within the skew.
pub validate_claims_iff :
    (jwt : JwtConfig) (now : ℕ) (claims : JwtClaims)
    → Fits (some now) jwt.clock_skew_secs
    → Fits claims.exp jwt.clock_skew_secs
    → (validate_claims jwt (some now) claims ≡ ok tt)
      ↔ (claims.iss ≡ some jwt.issuer)
        × IsFor jwt.audience claims.aud
        × IsActive claims.nbf now jwt.clock_skew_secs
        × IsUnexpired claims.exp now jwt.clock_skew_secs
unfolding validate_claims
validate_claims_iff jwt now claims fn fe = (
  (λ h. (
    (is_issuer_iff claims.iss jwt.issuer).0 (ground arith),
    IsFor-of_aud_matches claims.aud jwt.audience (ground arith),
    IsActive-of_not_before claims.nbf now jwt.clock_skew_secs fn (ground arith),
    IsUnexpired-of_not_expired claims.exp now jwt.clock_skew_secs fe (ground arith),
  )),
  (λ (i, a, n, x).
      rw
        (
          (is_issuer_iff claims.iss jwt.issuer).1 i,
          aud_matches-IsFor jwt.audience a,
          not_before-active claims.nbf now jwt.clock_skew_secs fn n,
          not_expired-unexpired claims.exp now jwt.clock_skew_secs fe x,
        )
        refl),
)
