-- ===== src/Propeller/Auth/Jwt/Verified.antt =====
-- What `decode_jwt` accepts.
use payment_processing.Common.{
  String, ◌≡◌, ◌↔◌, refl, ap, sym, ◌∙◌, some, ok, arith, bind_ok, given_ok,
}
use payment_processing.Common.Text.{◌++◌}
use payment_processing.Propeller.Config.{AuthConfig}
use payment_processing.Propeller.Auth.Signature.{Bytes, hmac_sha256}
use payment_processing.Propeller.Auth.Signature.Equality.{constant_time_eq_iff}
use payment_processing.Propeller.Auth.Claims.{JwtClaims, validate_claims}
use payment_processing.Propeller.Auth.Jwt.{
  Platform, AuthContext, split_at_dots, three_parts, verify_signature, decode_and_validate_hs256,
  context_of, decode_jwt,
}

-- A token of three parts whose last part is the signature of the first two under the configured
-- secret, and whose claims are accepted and give the context.
pub record IsVerified (platform : Platform) (config : AuthConfig) (token : String)
    (ctx : AuthContext) : Type 0 where
  pub secret : String
  pub header : String
  pub payload : String
  pub sig : String
  pub bytes : Bytes
  pub claims : JwtClaims
  pub configured : config.jwt.hmac_secret ≡ some secret
  pub form : three_parts (split_at_dots token) ≡ some (header, payload, sig)
  pub signed :
      platform.decode_base64 (platform.as_bytes sig)
      ≡ some (
          hmac_sha256 platform.sha256
            (platform.as_bytes secret)
            (platform.as_bytes (header ++ ("." ++ payload))))
  pub encoded : platform.decode_base64 (platform.as_bytes payload) ≡ some bytes
  pub parsed : platform.from_slice bytes ≡ some claims
  pub accepted : validate_claims config.jwt platform.now claims ≡ ok tt
  pub context : context_of config claims ≡ ok ctx

verify_signature-equal :
    (expected actual : Bytes) → verify_signature expected actual ≡ ok tt → expected ≡ actual
verify_signature-equal expected actual h = (constant_time_eq_iff expected actual).0 (ground arith)

verify_signature_self : (expected : Bytes) → verify_signature expected expected ≡ ok tt
verify_signature_self expected = rw ((constant_time_eq_iff expected expected).1 refl) refl

decode_jwt-IsVerified :
    (platform : Platform) (config : AuthConfig) (token : String) (ctx : AuthContext)
    → decode_jwt platform config token ≡ ok ctx
    → IsVerified platform config token ctx
unfolding decode_jwt decode_and_validate_hs256
decode_jwt-IsVerified platform config token ctx h =
    let (claims, decoded, context) =
      bind_ok (decode_and_validate_hs256 platform config.jwt token) (context_of config) ctx h in
    let (secret, configured, h1) = given_ok config.jwt.hmac_secret _ _ claims decoded in
    let ((header, payload, sig), form, h2) =
      given_ok (three_parts (split_at_dots token)) _ _ claims h1 in
    let expected =
      hmac_sha256 platform.sha256 (platform.as_bytes secret)
        (platform.as_bytes (header ++ ("." ++ payload))) in
    let (actual, found, h3) =
      given_ok (platform.decode_base64 (platform.as_bytes sig)) _ _ claims h2 in
    let (_, same, h4) = bind_ok (verify_signature expected actual) _ claims h3 in
    let (bytes, encoded, h5) =
      given_ok (platform.decode_base64 (platform.as_bytes payload)) _ _ claims h4 in
    let (read, parsed, h6) = given_ok (platform.from_slice bytes) _ _ claims h5 in
    let (_, accepted, h7) = bind_ok (validate_claims config.jwt platform.now read) _ claims h6 in
    record {
      secret = secret;
      header = header;
      payload = payload;
      sig = sig;
      bytes = bytes;
      claims = read;
      configured = configured;
      form = form;
      signed = found ∙ ap some (sym (verify_signature-equal expected actual same));
      encoded = encoded;
      parsed = parsed;
      accepted = accepted;
      context = cc;
    }

IsVerified-decode_jwt :
    (platform : Platform) (config : AuthConfig) (token : String) (ctx : AuthContext)
    → IsVerified platform config token ctx
    → decode_jwt platform config token ≡ ok ctx
unfolding decode_jwt decode_and_validate_hs256 validate_claims
IsVerified-decode_jwt platform config token ctx v =
    rw
      (
        v.configured, v.form, v.signed, verify_signature_self, v.encoded, v.parsed, v.accepted,
        v.context,
      )
      refl

-- `decode_jwt` gives a context exactly for the tokens of three parts, signed under the configured
-- secret, whose claims are accepted, and it is the context of those claims.
pub decode_jwt_iff :
    (platform : Platform) (config : AuthConfig) (token : String) (ctx : AuthContext)
    → (decode_jwt platform config token ≡ ok ctx) ↔ IsVerified platform config token ctx
decode_jwt_iff platform config token ctx = (
  decode_jwt-IsVerified platform config token ctx,
  IsVerified-decode_jwt platform config token ctx,
)
