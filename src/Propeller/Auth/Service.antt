-- ===== src/Propeller/Auth/Service.antt =====
-- The entry points of `AuthService` in approach-2/src/auth/mod.rs.
pub mod Requests
pub mod Calls
use payment_processing.Common.{
  String, Bool, true, false, not, List, [], ◌∷◌, Option, none, some, Result, ok, err, ◌>>=◌, ◌>>◌,
  ok_or, unwrap_or, any, if◌then◌else◌,
}
use payment_processing.Common.Text.{is_empty, ◌==◌ as same_text}
use payment_processing.Propeller.Config.{AuthConfig, ClientConfig}
use payment_processing.Propeller.Error.{PropellerError, unauthenticated, permission_denied}
use payment_processing.Propeller.Auth.Bearer.{extract_bearer}
use payment_processing.Propeller.Auth.Jwt.{Platform, AuthContext, decode_jwt}

-- The headers of a request: the value that `HeaderMap::get` finds under each name, where it is text.
abbrev pub Headers : Type 0
Headers = String → Option String

-- The metadata of a call, likewise by `MetadataMap::get`, which finds fewer: no binary value.
abbrev pub Metadata : Type 0
Metadata = String → Option String

abbrev pub bearer_in : Option String → Option String
bearer_in none = none
bearer_in (some value) = extract_bearer value

unfoldable pub extract_http_bearer : Headers → Option String
extract_http_bearer headers = bearer_in (headers "authorization")

unfoldable pub extract_grpc_bearer : Metadata → Option String
extract_grpc_bearer metadata = bearer_in (metadata "authorization")

unfoldable pub legacy_context : String → String → Result PropellerError AuthContext
legacy_context client_id legacy_tenant =
    if is_empty client_id
    then err (unauthenticated "missing client identity")
    else ok record {
      subject = client_id;
      tenant_id = legacy_tenant;
      client_id = client_id;
      scopes = [];
    }

unfoldable pub legacy_context_from_http :
    AuthConfig → Headers → ClientConfig → Result PropellerError AuthContext
unfolding legacy_context
legacy_context_from_http config headers client =
    legacy_context (unwrap_or (headers client.header) "") config.legacy_tenant

unfoldable pub legacy_context_from_grpc :
    AuthConfig → Metadata → ClientConfig → Result PropellerError AuthContext
unfolding legacy_context
legacy_context_from_grpc config metadata client =
    legacy_context (unwrap_or (metadata client.header) "") config.legacy_tenant

-- `.map(|ctx| (ctx, flag))`; the flag says that the legacy header was used in place of a token.
abbrev pub with_flag :
    Bool → Result PropellerError AuthContext → Result PropellerError (AuthContext × Bool)
with_flag flag (ok ctx) = ok (ctx, flag)
with_flag flag (err e) = err e

-- What both do when authentication is on, with the token that the request carries.
abbrev pub authenticate_enabled :
    Platform
    → AuthConfig
    → Option String
    → Result PropellerError AuthContext
    → String
    → Result PropellerError (AuthContext × Bool)
authenticate_enabled platform config (some token) legacy missing =
    with_flag false (decode_jwt platform config token)
authenticate_enabled platform config none legacy missing =
    if config.legacy_header_mode then with_flag true legacy else err (unauthenticated missing)

module _ (platform : Platform) (config : AuthConfig) where
  unfoldable pub authenticate_http :
      Headers → ClientConfig → Result PropellerError (AuthContext × Bool)
  unfolding extract_http_bearer legacy_context_from_http
  authenticate_http headers client =
      if not config.enabled
      then with_flag false (legacy_context_from_http config headers client)
      else authenticate_enabled platform config (extract_http_bearer headers)
          (legacy_context_from_http config headers client) "missing Authorization bearer token"

  unfoldable pub authenticate_grpc :
      Metadata → ClientConfig → Result PropellerError (AuthContext × Bool)
  unfolding extract_grpc_bearer legacy_context_from_grpc
  authenticate_grpc metadata client =
      if not config.enabled
      then with_flag false (legacy_context_from_grpc config metadata client)
      else authenticate_enabled platform config (extract_grpc_bearer metadata)
          (legacy_context_from_grpc config metadata client) "missing authorization bearer token"

abbrev pub known_key : List String → Option String → Result PropellerError (Unit {0})
known_key api_keys none = err (unauthenticated "missing x-api-key")
known_key api_keys (some key) =
    if any (λ candidate. same_text candidate key) api_keys
    then ok tt
    else err (permission_denied "invalid api key")

abbrev pub no_keys : List String → Bool
no_keys [] = true
no_keys (key ∷ keys) = false

unfoldable pub authorize_api_key_grpc : AuthConfig → Metadata → Result PropellerError (Unit {0})
authorize_api_key_grpc config metadata =
    if not config.enabled
    then ok tt
    else if no_keys config.api_keys
    then err (unauthenticated "publisher api keys are not configured")
    else known_key config.api_keys (metadata "x-api-key")
