-- ===== src/Propeller/Auth/Jwt.antt =====
-- Signed tokens: `decode_and_validate_hs256` and `decode_jwt` of approach-2/src/auth/mod.rs.
pub mod Verified
pub mod Build
mod Tests
use Prim.Native.Char.{code}
use payment_processing.Common.{
  ℕ, String, Bool, true, false, not, List, [], ◌∷◌, Option, none, some, Result, ok, err, ◌>>=◌,
  ◌>>◌, ok_or, unwrap_or, ◌==◌, if◌then◌else◌,
}
use payment_processing.Common.Text.{◌++◌, ◌==◌ as same_text}
use payment_processing.Propeller.Config.{AuthConfig, JwtConfig}
use payment_processing.Propeller.Error.{PropellerError, unauthenticated, internal}
use payment_processing.Propeller.Auth.Signature.{Bytes, constant_time_eq, hmac_sha256}
use payment_processing.Propeller.Auth.Claims.{
  Value, JwtClaims, value_to_string, validate_claims, parse_scopes,
}

-- What the crates and the system give: a text's bytes in UTF-8, SHA-256, the URL-safe base 64
-- without padding, serde's reading of the claims, and the seconds since 1970, none before it.
pub record Platform : Type 0 where
  pub as_bytes : String → Bytes
  pub sha256 : Bytes → Bytes
  pub decode_base64 : Bytes → Option Bytes
  pub from_slice : Bytes → Option JwtClaims
  pub now : Option ℕ

pub record AuthContext : Type 0 where
  pub subject : String
  pub tenant_id : String
  pub client_id : String
  pub scopes : List String

-- `str::split` at a dot: the first part, and the parts behind it.
unfoldable pub split_at_dots : String → String × List String
split_at_dots String.[] = ("", [])
split_at_dots (String.◌∷◌ c s) =
    let (part, parts) = split_at_dots s in
    if code c == b'.' then ("", part ∷ parts) else (String.◌∷◌ c part, parts)

-- The three parts that the iterator has to give, and no fourth.
abbrev pub three_parts : String × List String → Option (String × String × String)
three_parts (header, payload ∷ sig ∷ []) = some (header, payload, sig)
three_parts _ = none

-- `extra.get(…)` on the map that serde fills.
abbrev pub get_extra : String → List (String × Value) → Option Value
get_extra name [] = none
get_extra name ((key, value) ∷ extra) =
    if same_text key name then some value else get_extra name extra

abbrev tenant_of : Option Value → Option String
tenant_of none = none
tenant_of (some value) = value_to_string value

-- `Option::or_else` and `Option::unwrap_or_else`
abbrev pub or_else : Option String → Option String → Option String
or_else none other = other
or_else (some a) other = some a

abbrev pub verify_signature : Bytes → Bytes → Result PropellerError (Unit {0})
verify_signature expected actual =
    if not (constant_time_eq expected actual)
    then err (unauthenticated "jwt signature verification failed")
    else ok tt

module _ (platform : Platform) where
  unfoldable pub decode_and_validate_hs256 : JwtConfig → String → Result PropellerError JwtClaims
  unfolding split_at_dots
  decode_and_validate_hs256 jwt token = do
    secret ← ok_or jwt.hmac_secret (internal "jwt secret not configured")
    (header, payload, sig) ←
        ok_or (three_parts (split_at_dots token)) (unauthenticated "invalid jwt format")
    let expected =
        hmac_sha256 platform.sha256 (platform.as_bytes secret)
          (platform.as_bytes (header ++ ("." ++ payload)))
    actual ←
        ok_or (platform.decode_base64 (platform.as_bytes sig))
          (unauthenticated "invalid jwt signature encoding")
    verify_signature expected actual
    bytes ←
        ok_or (platform.decode_base64 (platform.as_bytes payload))
          (unauthenticated "invalid jwt payload")
    claims ← ok_or (platform.from_slice bytes) (unauthenticated "invalid jwt claims")
    validate_claims jwt platform.now claims
    ok claims

-- The context that `decode_jwt` makes of the claims.
unfoldable pub context_of : AuthConfig → JwtClaims → Result PropellerError AuthContext
context_of config claims = do
  tenant_id ←
      ok_or (tenant_of (get_extra config.tenant_claim claims.extra))
        (unauthenticated ("missing tenant claim: " ++ config.tenant_claim))
  client_id ←
      ok_or (or_else claims.client_id claims.sub) (unauthenticated "missing client identity")
  ok record {
    subject = unwrap_or claims.sub client_id;
    tenant_id = tenant_id;
    client_id = client_id;
    scopes = parse_scopes claims.scope claims.scopes;
  }

unfoldable pub decode_jwt : Platform → AuthConfig → String → Result PropellerError AuthContext
unfolding decode_and_validate_hs256 context_of
decode_jwt platform config token =
    decode_and_validate_hs256 platform config.jwt token >>= context_of config
