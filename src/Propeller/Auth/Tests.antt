-- ===== src/Propeller/Auth/Tests.antt =====
-- A token, a request and a call, worked out on a platform whose codecs are the identity.
use Prim.Native.Char.{code}
use payment_processing.Common.{
  arith, String, ◌≡◌, inl, if◌then◌else◌, refl, true, false, [], ◌∷◌, none, some, ok, err, take,
}
use payment_processing.Propeller.Config.{JwtConfig, AuthConfig, ClientConfig, default_auth_config}
use payment_processing.Propeller.Error.{permission_denied, unauthenticated}
use payment_processing.Propeller.Auth.Bearer.{extract_bearer, split_at_space, eq_ignore_ascii_case}
use payment_processing.Propeller.Auth.Signature.{
  Bytes, constant_time_eq, hmac_sha256, key_block, xor_each,
}
use payment_processing.Propeller.Auth.Claims.{
  JwtClaims, string, aud_matches, validate_claims, parse_scopes, insert_scopes, split_whitespace,
}
use payment_processing.Propeller.Auth.Claims.Acceptance.{
  IsFor, IsActive, IsUnexpired, validate_claims_iff,
}
use payment_processing.Propeller.Auth.Jwt.{
  Platform, AuthContext, split_at_dots, decode_jwt, decode_and_validate_hs256, context_of,
}
use payment_processing.Propeller.Auth.Jwt.Verified.{IsVerified, decode_jwt_iff}
use payment_processing.Propeller.Auth.Service.Calls.{is_binary, IsMetadataOf, authenticate_grpc_iff}
use payment_processing.Propeller.Auth.Service.{
  Headers, Metadata, authenticate_http, authenticate_grpc, authorize_api_key_grpc,
  extract_http_bearer,
}
use payment_processing.Propeller.Auth.Service.Requests.{Admitted, authenticate_http_iff}

codes : String → Bytes
codes String.[] = []
codes (String.◌∷◌ c s) = code c ∷ codes s

abbrev claims : JwtClaims
claims = record {
  sub = some "rider-7";
  exp = some 1000;
  nbf = none;
  iss = some "idp";
  aud = some (string "propeller");
  client_id = none;
  scope = some "read  write read";
  scopes = some ("push" ∷ []);
  extra = ("tenant_id", string "acme") ∷ [];
}

abbrev platform : Platform
platform = record {
  as_bytes = codes;
  sha256 = take 2;
  decode_base64 = some;
  from_slice = λ bytes. some claims;
  now = some 990;
}

abbrev jwt : JwtConfig
jwt = record {
  issuer = "idp";
  audience = "propeller";
  clock_skew_secs = 30;
  hmac_secret = some "k";
  jwks_url = none;
}

abbrev config : AuthConfig
config = record default_auth_config {
  jwt = jwt;
  api_keys = "alpha" ∷ "beta" ∷ [];
  enabled = true;
  legacy_header_mode = true;
}

-- The signature under the shortened digest is its first two bytes, both of them the outer pad's.
abbrev token : String
token = "h.p.7\\"

abbrev headers : Headers
headers name = some "bearer h.p.7\\"

abbrev client : ClientConfig
client = record {
  header = "x-client-id";
  device_header = "x-device-id";
  enable_device_support = true;
  device_attribute_headers = [];
}

abbrev ctx : AuthContext
ctx = record {
  subject = "rider-7";
  tenant_id = "acme";
  client_id = "rider-7";
  scopes = "read" ∷ "write" ∷ "push" ∷ [];
}

token_accepted : decode_jwt platform config token ≡ ok ctx
unfolding decode_jwt decode_and_validate_hs256 context_of split_at_dots validate_claims aud_matches
    hmac_sha256 key_block xor_each constant_time_eq parse_scopes insert_scopes split_whitespace
    codes
token_accepted = refl

-- One character less of the signature, and the token is refused.
forged_refused :
    decode_jwt platform config "h.p.7" ≡ err (unauthenticated "jwt signature verification failed")
unfolding decode_jwt decode_and_validate_hs256 split_at_dots hmac_sha256 key_block xor_each
    constant_time_eq codes
forged_refused = refl

validate_claims_iff_example :
    (claims.iss ≡ some jwt.issuer)
    × IsFor jwt.audience claims.aud
    × IsActive claims.nbf 990 jwt.clock_skew_secs
    × IsUnexpired claims.exp 990 jwt.clock_skew_secs
unfolding validate_claims aud_matches
validate_claims_iff_example =
    (validate_claims_iff jwt 990 claims (omega arith) (omega arith)).0 refl

decode_jwt_iff_example : IsVerified platform config token ctx
decode_jwt_iff_example = (decode_jwt_iff platform config token ctx).0 token_accepted

request_accepted : authenticate_http platform config headers client ≡ ok (ctx, false)
unfolding authenticate_http extract_http_bearer extract_bearer split_at_space eq_ignore_ascii_case
    decode_jwt decode_and_validate_hs256 context_of split_at_dots validate_claims aud_matches
    hmac_sha256 key_block xor_each constant_time_eq parse_scopes insert_scopes split_whitespace
    codes
request_accepted = refl

authenticate_http_iff_example : Admitted platform config client headers ctx false
authenticate_http_iff_example =
    (authenticate_http_iff platform config client headers ctx false refl).0 request_accepted

-- What a call with these headers has for metadata.
abbrev metadata : Metadata
metadata name = if is_binary name then none else headers name

metadata-IsMetadataOf : IsMetadataOf headers metadata
metadata-IsMetadataOf = record { text = λ name e. rw e refl; binary = λ name e. rw e refl }

authenticate_grpc_iff_example : authenticate_grpc platform config metadata client ≡ ok (ctx, false)
authenticate_grpc_iff_example =
    (authenticate_grpc_iff platform config client headers metadata ctx false
        metadata-IsMetadataOf).1
      (request_accepted, inl refl)

wrong_key :
    authorize_api_key_grpc config (λ name. some "gamma") ≡ err (permission_denied "invalid api key")
unfolding authorize_api_key_grpc
wrong_key = refl
