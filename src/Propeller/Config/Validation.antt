-- ===== src/Propeller/Config/Validation.antt =====
-- What `validate` accepts.
use payment_processing.Common.{
  ◌<◌, String, ◌≡◌, refl, ◌↔◌, ◌⊎◌, true, false, Option, none, some, ok, arith, unwrap_or,
  Bool-cases, inl, inr,
}
use payment_processing.Common.Text.{is_empty}
use payment_processing.Propeller.Config.{AuthConfig, AppConfig, validate_auth, validate}

-- What authentication needs of its settings.
pub record IsUsableAuth (auth : AuthConfig) : Type 0 where
  pub issuer : is_empty auth.jwt.issuer ≡ false
  pub audience : is_empty auth.jwt.audience ≡ false
  pub tenant_claim : is_empty auth.tenant_claim ≡ false
  pub secret : (key : String) × (auth.jwt.hmac_secret ≡ some key) × (is_empty key ≡ false)

-- What the service needs of its settings.
pub record IsUsable (cfg : AppConfig) : Type 0 where
  pub auth : (cfg.auth.enabled ≡ false) ⊎ IsUsableAuth cfg.auth
  pub grpc_ping_interval : 0 < cfg.grpc.ping_interval_secs
  pub grpc_ping_timeout : 0 < cfg.grpc.ping_timeout_secs
  pub ws_ping_interval : 0 < cfg.keepalive.ws_ping_interval_secs
  pub ws_pong_timeout : 0 < cfg.keepalive.ws_pong_timeout_secs
  pub grpc_idle_timeout : 0 < cfg.keepalive.grpc_stream_idle_timeout_secs

secret_of :
    (secret : Option String)
    → is_empty (unwrap_or secret "") ≡ false
    → (key : String) × (secret ≡ some key) × (is_empty key ≡ false)
secret_of none h = cc
secret_of (some key) h = (key, refl, h)

secret_back :
    (secret : Option String)
    → ((key : String) × (secret ≡ some key) × (is_empty key ≡ false))
    → is_empty (unwrap_or secret "") ≡ false
secret_back secret (key, e, h) = rw e h

IsUsableAuth-of_validate :
    (cfg : AppConfig) → cfg.auth.enabled ≡ true → validate cfg ≡ ok tt → IsUsableAuth cfg.auth
unfolding validate
IsUsableAuth-of_validate cfg e h = record {
  issuer = ground arith;
  audience = ground arith;
  tenant_claim = ground arith;
  secret = secret_of cfg.auth.jwt.hmac_secret (ground arith);
}

validate-IsUsable : (cfg : AppConfig) → validate cfg ≡ ok tt → IsUsable cfg
unfolding validate
validate-IsUsable cfg h = record {
  auth = elim (Bool-cases cfg.auth.enabled) [
    | inl e ↦ inr (IsUsableAuth-of_validate cfg e h)
    | inr e ↦ inl e
  ];
  grpc_ping_interval = ground arith;
  grpc_ping_timeout = ground arith;
  ws_ping_interval = ground arith;
  ws_pong_timeout = ground arith;
  grpc_idle_timeout = ground arith;
}

validate_auth_usable : (auth : AuthConfig) → IsUsableAuth auth → validate_auth auth ≡ ok tt
unfolding validate_auth
validate_auth_usable auth u = ground (arith, secret_back auth.jwt.hmac_secret u.secret)

validate-of_IsUsable : (cfg : AppConfig) → IsUsable cfg → validate cfg ≡ ok tt
unfolding validate
validate-of_IsUsable cfg u = elim u.auth [
  | inl off ↦ ground arith
  | inr usable ↦ ground (arith, validate_auth_usable cfg.auth usable)
]

-- `validate` accepts exactly the settings whose timers are positive and which, if authentication is
-- enabled, name an issuer, an audience, a tenant claim and a secret.
pub validate_iff : (cfg : AppConfig) → (validate cfg ≡ ok tt) ↔ IsUsable cfg
validate_iff cfg = (validate-IsUsable cfg, validate-of_IsUsable cfg)
