-- ===== src/Propeller/Auth/Jwt/Build.antt =====
-- `build_jwt` of approach-2/src/auth/mod.rs, which signs a token, and what `decode_jwt` makes of it.
use Prim.Native.Char.{Char, code}
use text.Mathlib.TextLemmas.{cons-append, nil-append}
use payment_processing.Common.{
  String, ◌==◌, ◌≡◌, ◌≢◌, refl, ap, ◌∙◌, [], ◌∷◌, some, Result, ok, err, arith, ◌>>=◌, Bool-cases,
  inl, inr,
}
use payment_processing.Common.Text.{◌++◌, Lacks}
use payment_processing.Propeller.Config.{AuthConfig}
use payment_processing.Propeller.Error.{unauthenticated}
use payment_processing.Propeller.Auth.Signature.{Bytes, constant_time_eq, hmac_sha256}
use payment_processing.Propeller.Auth.Signature.Equality.{constant_time_eq_iff}
use payment_processing.Propeller.Auth.Claims.{JwtClaims, validate_claims}
use payment_processing.Propeller.Auth.Jwt.{
  Platform, split_at_dots, three_parts, verify_signature, decode_and_validate_hs256, context_of,
  decode_jwt,
}

-- `encode` is the URL-safe base 64 without padding, and the header and the payload are their JSON.
module _ (platform : Platform) (encode : Bytes → String) where
  -- The signature of the first two parts under a secret.
  abbrev pub mac : String → Bytes → Bytes → Bytes
  mac secret header payload =
      hmac_sha256 platform.sha256 (platform.as_bytes secret)
        (platform.as_bytes (encode header ++ ("." ++ encode payload)))

  unfoldable pub build_jwt : String → Bytes → Bytes → String
  build_jwt secret header payload =
      let sig_encoded = encode (mac secret header payload) in
      encode header ++ ("." ++ (encode payload ++ ("." ++ sig_encoded)))

-- What the decoder does with the encoder's texts, which hold no dot.
pub record Decodes (platform : Platform) (encode : Bytes → String) : Type 0 where
  pub decode-encode :
      (bytes : Bytes) → platform.decode_base64 (platform.as_bytes (encode bytes)) ≡ some bytes
  pub encode-Lacks : (bytes : Bytes) → Lacks b'.' (encode bytes)

abbrev dot : Char
dot = "."

dot-append : (u : String) → "." ++ u ≡ String.◌∷◌ dot u
dot-append u = cons-append dot "" u ∙ ap (String.◌∷◌ dot) (nil-append u)

split_at_dots-Lacks : (s : String) → Lacks b'.' s → split_at_dots s ≡ (s, [])
unfolding split_at_dots
split_at_dots-Lacks String.[] h = refl
split_at_dots-Lacks (String.◌∷◌ c s) (h, hs) = elim (Bool-cases (code c == b'.')) [
  | inl e ↦ absurd (h (ground arith))
  | inr e ↦ rw (e, split_at_dots-Lacks s hs) refl
]

split_at_dots-append :
    (s t : String)
    → Lacks b'.' s
    → split_at_dots (s ++ ("." ++ t)) ≡ (let (part, parts) = split_at_dots t in (s, part ∷ parts))
unfolding split_at_dots
split_at_dots-append String.[] t h = rw (nil-append, dot-append) refl
split_at_dots-append (String.◌∷◌ c s) t (h, hs) = elim (Bool-cases (code c == b'.')) [
  | inl e ↦ absurd (h (ground arith))
  | inr e ↦ rw (cons-append c s ("." ++ t), e, split_at_dots-append s t hs) refl
]

regroup :
    {E A B : Type 0} (v u : Result E (Unit {0})) (a : A) (f : A → Result E B)
    → ((v >>= λ _. u >>= λ _. ok a) >>= f) ≡ (v >>= λ _. u >>= λ _. f a)
regroup (ok _) (ok _) a f = refl
regroup (ok _) (err e) a f = refl
regroup (err e) u a f = refl

verify_signature-equal :
    (expected actual : Bytes) → expected ≡ actual → verify_signature expected actual ≡ ok tt
verify_signature-equal expected actual same =
    rw ((constant_time_eq_iff expected actual).1 same) refl

verify_signature-unequal :
    (expected actual : Bytes)
    → expected ≢ actual
    → verify_signature expected actual ≡ err (unauthenticated "jwt signature verification failed")
verify_signature-unequal expected actual other =
    elim (Bool-cases (constant_time_eq expected actual)) [
      | inl e ↦ absurd (other ((constant_time_eq_iff expected actual).0 e))
      | inr e ↦ rw e refl
    ]

module _ (platform : Platform) (encode : Bytes → String) (decodes : Decodes platform encode) where
  three_parts-build_jwt :
      (secret : String) (header payload : Bytes)
      → three_parts (split_at_dots (build_jwt platform encode secret header payload))
        ≡ some (encode header, encode payload, encode (mac platform encode secret header payload))
  unfolding build_jwt
  three_parts-build_jwt secret header payload =
      let sig_encoded = encode (mac platform encode secret header payload) in
      rw
        (
          split_at_dots-append (encode header) (encode payload ++ ("." ++ sig_encoded))
              (decodes.encode-Lacks header),
          split_at_dots-append (encode payload) sig_encoded (decodes.encode-Lacks payload),
          split_at_dots-Lacks sig_encoded
              (decodes.encode-Lacks (mac platform encode secret header payload)),
        )
        refl

  -- What the decoding of a token comes to once its parts are read.
  decode_jwt-verify_signature :
      (config : AuthConfig) (secret own : String) (header payload : Bytes) (claims : JwtClaims)
      → config.jwt.hmac_secret ≡ some own
      → platform.from_slice payload ≡ some claims
      → decode_jwt platform config (build_jwt platform encode secret header payload) ≡ (
          verify_signature
            (mac platform encode own header payload)
            (mac platform encode secret header payload)
          >>= λ _. validate_claims config.jwt platform.now claims >>= λ _. context_of config claims)
  unfolding decode_jwt decode_and_validate_hs256 validate_claims
  decode_jwt-verify_signature config secret own header payload claims configured parsed =
      rw
        (
          configured,
          three_parts-build_jwt secret header payload,
          decodes.decode-encode (mac platform encode secret header payload),
          decodes.decode-encode payload,
          parsed,
        )
        (regroup
          (verify_signature (mac platform encode own header payload)
            (mac platform encode secret header payload))
          (validate_claims config.jwt platform.now claims) claims (context_of config))

  -- A token that is built of the JSON of some claims, decoded under the configured secret: if the two
  -- secrets give it one signature, the answer is that of the validation of the claims and of their
  -- context, and if not, the signature is refused, whatever the claims are.
  pub decode_jwt-build_jwt :
      (config : AuthConfig) (secret own : String) (header payload : Bytes) (claims : JwtClaims)
      → config.jwt.hmac_secret ≡ some own
      → platform.from_slice payload ≡ some claims
      → let decoded =
          decode_jwt platform config (build_jwt platform encode secret header payload) in
        let expected = mac platform encode own header payload in
        let actual = mac platform encode secret header payload in
        (expected ≡ actual
          → decoded
            ≡ (validate_claims config.jwt platform.now claims >>= λ _. context_of config claims))
        × (expected ≢ actual → decoded ≡ err (unauthenticated "jwt signature verification failed"))
  decode_jwt-build_jwt config secret own header payload claims configured parsed =
      let decoded =
        decode_jwt-verify_signature config secret own header payload claims configured parsed in
      let accept = λ (_ : Unit {0}).
        validate_claims config.jwt platform.now claims >>= λ _. context_of config claims in
      (
        λ same. decoded ∙ ap (λ r. r >>= accept) (verify_signature-equal _ _ same),
        λ other. decoded ∙ ap (λ r. r >>= accept) (verify_signature-unequal _ _ other),
      )
