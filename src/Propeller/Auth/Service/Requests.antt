-- ===== src/Propeller/Auth/Service/Requests.antt =====
-- Who gets in: which requests the entry points let pass, and as whom.
use payment_processing.Common.{
  String, ◌≡◌, ◌↔◌, ◌⊎◌, inl, inr, refl, ap, sym, ◌∙◌, subst, Bool, not, true, false, List, [], ◌∷◌,
  Option, none, some, Result, ok, err, arith, any, if◌then◌else◌, Bool-cases, unwrap_or,
}
use payment_processing.Common.Text.{is_empty, ◌==◌ as same_text, eq_iff}
use payment_processing.Propeller.Config.{AuthConfig, ClientConfig}
use payment_processing.Propeller.Error.{PropellerError}
use payment_processing.Propeller.Auth.Jwt.{Platform, AuthContext, decode_jwt}
use payment_processing.Propeller.Auth.Jwt.Verified.{IsVerified, decode_jwt_iff}
use payment_processing.Propeller.Auth.Bearer.{extract_bearer}
use payment_processing.Propeller.Auth.Bearer.Schemes.{Carries, extract_bearer_iff}
use payment_processing.Propeller.Auth.Service.{
  Headers, legacy_context, legacy_context_from_http, extract_http_bearer, authenticate_http,
  authorize_api_key_grpc, known_key, no_keys, with_flag, authenticate_enabled, bearer_in,
}

-- The request carries the token in its `authorization` header.
pub record HasToken (headers : Headers) (token : String) : Type 0 where
  pub value : String
  pub sent : headers "authorization" ≡ some value
  pub carried : Carries value token

-- The caller is the client that the configured header names, in the tenant kept for such callers.
pub record IsLegacy (config : AuthConfig) (client : ClientConfig) (headers : Headers)
    (ctx : AuthContext) : Type 0 where
  pub named : headers client.header ≡ some ctx.client_id
  pub some_name : is_empty ctx.client_id ≡ false
  pub subject : ctx.subject ≡ ctx.client_id
  pub tenant : ctx.tenant_id ≡ config.legacy_tenant
  pub scopes : ctx.scopes ≡ []

-- How a request gets in, when authentication is on.
pub data Admitted (platform : Platform) (config : AuthConfig) (client : ClientConfig)
    (headers : Headers) : AuthContext → Bool → Type 0 where
  by_token :
      (token : String) (ctx : AuthContext)
      → HasToken headers token
      → IsVerified platform config token ctx
      → Admitted platform config client headers ctx false
  by_header :
      (ctx : AuthContext)
      → config.legacy_header_mode ≡ true
      → extract_http_bearer headers ≡ none
      → IsLegacy config client headers ctx
      → Admitted platform config client headers ctx true

token_of :
    (sent : Option String) (token : String)
    → bearer_in sent ≡ some token
    → (value : String) × (sent ≡ some value) × (extract_bearer value ≡ some token)
token_of none token h = cc
token_of (some value) token h = (value, refl, h)

extract_http_bearer_iff :
    (headers : Headers) (token : String)
    → (extract_http_bearer headers ≡ some token) ↔ HasToken headers token
unfolding extract_http_bearer
extract_http_bearer_iff headers token = (
  (λ h.
      let (value, sent, e) = token_of (headers "authorization") token h in
      record { value = value; sent = sent; carried = (extract_bearer_iff value token).0 e }),
  λ t. ap bearer_in t.sent ∙ (extract_bearer_iff t.value token).1 t.carried,
)

named_of :
    (sent : Option String) (ctx : AuthContext)
    → is_empty (unwrap_or sent "") ≡ false
    → ctx.client_id ≡ unwrap_or sent ""
    → sent ≡ some ctx.client_id
named_of none ctx h e = cc
named_of (some name) ctx h e = cc

legacy_context-ok :
    (name tenant : String) (ctx : AuthContext)
    → legacy_context name tenant ≡ ok ctx
    → (is_empty name ≡ false)
      × (ctx ≡ record { subject = name; tenant_id = tenant; client_id = name; scopes = [] })
unfolding legacy_context
legacy_context-ok name tenant ctx h = elim (Bool-cases (is_empty name)) [
  | inl e ↦ ground arith
  | inr e ↦ (e, ground arith)
]

IsLegacy-of :
    (config : AuthConfig) (client : ClientConfig) (headers : Headers) (ctx : AuthContext)
    → legacy_context_from_http config headers client ≡ ok ctx
    → IsLegacy config client headers ctx
unfolding legacy_context_from_http
IsLegacy-of config client headers ctx h =
    let (filled, same) =
      legacy_context-ok (unwrap_or (headers client.header) "") config.legacy_tenant ctx h in
    record {
      named = named_of (headers client.header) ctx filled (ap (λ c. c.client_id) same);
      some_name = ap (λ c. is_empty c.client_id) same ∙ filled;
      subject = ap (λ c. c.subject) same ∙ sym (ap (λ c. c.client_id) same);
      tenant = ap (λ c. c.tenant_id) same;
      scopes = ap (λ c. c.scopes) same;
    }

legacy-of_IsLegacy :
    (config : AuthConfig) (client : ClientConfig) (headers : Headers) (ctx : AuthContext)
    → IsLegacy config client headers ctx
    → legacy_context_from_http config headers client ≡ ok ctx
unfolding legacy_context_from_http legacy_context
legacy-of_IsLegacy config client headers ctx l =
    rw (l.named, l.some_name)
      (λ i. ok (record {
        subject = sym l.subject i;
        tenant_id = sym l.tenant i;
        client_id = ctx.client_id;
        scopes = sym l.scopes i;
      }))

with_flag-ok :
    (mark : Bool) (r : Result PropellerError AuthContext) (ctx : AuthContext) (flag : Bool)
    → with_flag mark r ≡ ok (ctx, flag)
    → (r ≡ ok ctx) × (mark ≡ flag)
with_flag-ok mark (err e) ctx flag h = cc
with_flag-ok mark (ok c) ctx flag h = ground arith

back :
    (platform : Platform) (config : AuthConfig) (client : ClientConfig) (headers : Headers)
    {ctx : AuthContext} {flag : Bool}
    → config.enabled ≡ true
    → Admitted platform config client headers ctx flag
    → authenticate_http platform config headers client ≡ ok (ctx, flag)
unfolding authenticate_http decode_jwt
back platform config client headers on (by_token token ctx sent verified) =
    rw
      (
        on,
        (extract_http_bearer_iff headers token).1 sent,
        (decode_jwt_iff platform config token ctx).1 verified,
      )
      refl
back platform config client headers on (by_header ctx mode sent legacy) =
    rw (on, sent, mode, legacy-of_IsLegacy config client headers ctx legacy) refl

mode_of :
    {A : Type 0} (mode : Bool) (r : Result PropellerError A) (e : PropellerError) (a : A)
    → (if mode then r else err e) ≡ ok a
    → (mode ≡ true) × (r ≡ ok a)
mode_of true r e a h = (refl, h)
mode_of false r e a h = cc

when_on :
    {A : Type 0} (on : Bool) (off enabled : A)
    → on ≡ true
    → (if not on then off else enabled) ≡ enabled
when_on true off enabled h = refl
when_on false off enabled h = cc

let_in :
    (platform : Platform) (config : AuthConfig) (client : ClientConfig) (headers : Headers)
    (ctx : AuthContext) (flag : Bool) (token : Option String)
    → extract_http_bearer headers ≡ token
    → authenticate_enabled platform config token
        (legacy_context_from_http config headers client)
        "missing Authorization bearer token"
      ≡ ok (ctx, flag)
    → Admitted platform config client headers ctx flag
let_in platform config client headers ctx flag (some token) sent h =
    let (decoded, same) = with_flag-ok false (decode_jwt platform config token) ctx flag h in
    subst (Admitted platform config client headers ctx) same (
      by_token token ctx ((extract_http_bearer_iff headers token).0 sent)
        ((decode_jwt_iff platform config token ctx).0 decoded))
let_in platform config client headers ctx flag none sent h =
    let (mode, h1) = mode_of config.legacy_header_mode _ _ (ctx, flag) h in
    let (legacy, same) =
      with_flag-ok true (legacy_context_from_http config headers client) ctx flag h1 in
    subst (Admitted platform config client headers ctx) same
      (by_header ctx mode sent (IsLegacy-of config client headers ctx legacy))

-- With authentication on, an HTTP request is let in exactly with a token that is verified, as the
-- client of that token, or without a bearer token in the legacy mode, as the client that its header
-- names.
pub authenticate_http_iff :
    (platform : Platform) (config : AuthConfig) (client : ClientConfig) (headers : Headers)
    (ctx : AuthContext) (flag : Bool)
    → config.enabled ≡ true
    → (authenticate_http platform config headers client ≡ ok (ctx, flag))
      ↔ Admitted platform config client headers ctx flag
unfolding authenticate_http
authenticate_http_iff platform config client headers ctx flag on = (
  (λ h.
      let_in platform config client headers ctx flag (extract_http_bearer headers) refl
        (sym (when_on config.enabled _ _ on) ∙ h)),
  λ a. back platform config client headers on a,
)

-- The text is one of those listed.
abbrev pub IsOneOf : String → List String → Type 0
IsOneOf key [] = ⊥
IsOneOf key (k ∷ keys) = (k ≡ key) ⊎ IsOneOf key keys

any_key-IsOneOf :
    (keys : List String) (key : String) → any (λ c. same_text c key) keys ≡ true → IsOneOf key keys
any_key-IsOneOf [] key h = cc
any_key-IsOneOf (k ∷ keys) key h = elim (Bool-cases (same_text k key)) [
  | inl e ↦ inl ((eq_iff k key).0 e)
  | inr e ↦ inr (any_key-IsOneOf keys key (ground arith))
]

IsOneOf-any_key :
    (keys : List String) (key : String) → IsOneOf key keys → any (λ c. same_text c key) keys ≡ true
IsOneOf-any_key [] key h = absurd h
IsOneOf-any_key (k ∷ keys) key (inl e) = rw ((eq_iff k key).1 e) refl
IsOneOf-any_key (k ∷ keys) key (inr m) = rw (IsOneOf-any_key keys key m) (ground arith)

key_sent :
    (api_keys : List String) (sent : Option String)
    → known_key api_keys sent ≡ ok tt
    → (key : String) × (sent ≡ some key) × (any (λ c. same_text c key) api_keys ≡ true)
key_sent api_keys none h = cc
key_sent api_keys (some key) h = (key, refl, ground arith)

no_keys-IsOneOf : (keys : List String) (key : String) → IsOneOf key keys → no_keys keys ≡ false
no_keys-IsOneOf [] key h = absurd h
no_keys-IsOneOf (k ∷ keys) key h = refl

-- With authentication on, a call is let through exactly when it has a key, and that key is one of
-- the configured ones.
pub authorize_api_key_grpc_iff :
    (config : AuthConfig) (metadata : Headers)
    → config.enabled ≡ true
    → (authorize_api_key_grpc config metadata ≡ ok tt)
      ↔ ((key : String) × (metadata "x-api-key" ≡ some key) × IsOneOf key config.api_keys)
unfolding authorize_api_key_grpc
authorize_api_key_grpc_iff config metadata on = (
  (λ h.
      let (key, sent, known) = key_sent config.api_keys (metadata "x-api-key") (ground arith) in
      (key, sent, any_key-IsOneOf config.api_keys key known)),
  (λ (key, sent, known).
      rw
        (
          no_keys-IsOneOf config.api_keys key known,
          sent,
          IsOneOf-any_key config.api_keys key known,
          on,
        )
        refl),
)
