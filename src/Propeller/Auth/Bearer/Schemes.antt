-- ===== src/Propeller/Auth/Bearer/Schemes.antt =====
-- The header values from which `extract_bearer` takes a token.
use Prim.Native.Char.{Char, code}
use text.Mathlib.TextEquality.{Char-path}
use text.Mathlib.TextLemmas.{cons-append, nil-append}
use payment_processing.Common.{
  String, ◌≡◌, ◌≢◌, ◌↔◌, refl, sym, ap, ◌∙◌, true, false, Option, none, some, ◌==◌, arith,
  Bool-cases, inl, inr,
}
use payment_processing.Common.Text.{◌++◌, is_empty, Lacks, space, space-append}
use payment_processing.Propeller.Auth.Bearer.{
  split_at_space, eq_ignore_ascii_case, bearer_token, extract_bearer,
}

-- What `split_at_space` has found.
abbrev Found : String → String × Option String → Type 0
Found v (h, none) = Unit
Found v (h, some t) = (v ≡ h ++ (" " ++ t)) × Lacks b' ' h

extend :
    (c : Char) (v h : String) (r : Option String)
    → code c ≢ b' '
    → Found v (h, r)
    → Found (String.◌∷◌ c v) (String.◌∷◌ c h, r)
extend c v h none ne f = tt
extend c v h (some t) ne f = (ap (String.◌∷◌ c) f.0 ∙ sym (cons-append c h (" " ++ t)), (ne, f.1))

same_code : (n : Char) → (code n == b' ') ≡ true → code n ≡ code space
same_code n e = ground arith

split_at_space-Found : (v : String) → Found v (split_at_space v)
unfolding split_at_space
split_at_space-Found String.[] = tt
split_at_space-Found (String.◌∷◌ c s) = elim (Bool-cases (code c == b' ')) [
  | inl e ↦ rw e (
    ap (λ d. String.◌∷◌ d s) (Char-path c space (same_code c e))
        ∙ sym (nil-append _ ∙ space-append s),
    tt,
  )
  | inr e ↦
      rw e (
        extend c s (split_at_space s).0 (split_at_space s).1 (ground arith)
          (split_at_space-Found s))
]

split_at_space-joined :
    (h t : String) → Lacks b' ' h → split_at_space (h ++ (" " ++ t)) ≡ (h, some t)
unfolding split_at_space
split_at_space-joined String.[] t l = rw (nil-append, space-append) refl
split_at_space-joined (String.◌∷◌ c h) t l = rw cons-append (elim (Bool-cases (code c == b' ')) [
  | inl e ↦ absurd (l.0 (ground arith))
  | inr e ↦ rw (e, split_at_space-joined h t l.1) refl
])

-- A value carries the token `t`: a scheme that reads `bearer` in any case, one space, and then `t`,
-- which is not empty.
pub record Carries (value t : String) : Type 0 where
  pub scheme : String
  pub form : value ≡ scheme ++ (" " ++ t)
  pub one_word : Lacks b' ' scheme
  pub is_bearer : eq_ignore_ascii_case scheme "bearer" ≡ true
  pub some_token : is_empty t ≡ false

taken :
    (scheme t token : String)
    → bearer_token (scheme, some t) ≡ some token
    → (t ≡ token) × (eq_ignore_ascii_case scheme "bearer" ≡ true) × (is_empty t ≡ false)
taken scheme t token e = ground arith

accepted :
    (value scheme token : String) (rest : Option String)
    → Found value (scheme, rest)
    → bearer_token (scheme, rest) ≡ some token
    → Carries value token
accepted value scheme token none f e = ground arith
accepted value scheme token (some t) f e =
    let (same, bearer, present) = taken scheme t token e in
    record {
      scheme = scheme;
      form = f.0 ∙ ap (λ u. scheme ++ (" " ++ u)) same;
      one_word = f.1;
      is_bearer = bearer;
      some_token = ap is_empty (sym same) ∙ present;
    }

-- `extract_bearer` gives a token exactly for the values that consist of one word that reads `bearer`
-- in any case, a space, and that token, which is not empty.
pub extract_bearer_iff :
    (value token : String) → (extract_bearer value ≡ some token) ↔ Carries value token
unfolding extract_bearer
extract_bearer_iff value token = (
  accepted value (split_at_space value).0 token (split_at_space value).1
      (split_at_space-Found value),
  λ k.
      ap (λ v. bearer_token (split_at_space v)) k.form
      ∙ ap bearer_token (split_at_space-joined k.scheme token k.one_word)
      ∙ rw (k.is_bearer, k.some_token) refl,
)
