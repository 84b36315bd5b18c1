-- ===== src/Propeller/Config.antt =====
-- approach-2/src/config.rs: the settings, their defaults and `validate`. Reading the file is the
-- `config` crate's. An `anyhow` error is its text.
pub mod Validation
pub mod Fixtures
mod Tests
use payment_processing.Common.{
  ℕ, String, Bool, true, false, List, [], Option, none, some, Result, ok, err, ◌>>=◌, ◌>>◌, ◌==◌,
  ◌&&◌, unwrap_or, if◌then◌else◌,
}
use payment_processing.Common.Text.{is_empty}

pub record GrpcConfig : Type 0 where
  pub address : String
  pub ping_interval_secs : ℕ
  pub ping_timeout_secs : ℕ
  pub enable_reflection : Bool

pub record KeepaliveConfig : Type 0 where
  pub ws_ping_interval_secs : ℕ
  pub ws_pong_timeout_secs : ℕ
  pub grpc_stream_idle_timeout_secs : ℕ

pub record ClientConfig : Type 0 where
  pub header : String
  pub device_header : String
  pub enable_device_support : Bool
  pub device_attribute_headers : List String

pub record JwtConfig : Type 0 where
  pub issuer : String
  pub audience : String
  pub clock_skew_secs : ℕ
  pub hmac_secret : Option String
  pub jwks_url : Option String

pub record AuthConfig : Type 0 where
  pub enabled : Bool
  pub legacy_header_mode : Bool
  pub tenant_claim : String
  pub legacy_tenant : String
  pub api_keys : List String
  pub jwt : JwtConfig

pub record ServiceConfig : Type 0 where
  pub name : String

pub record HttpConfig : Type 0 where
  pub address : String

pub record BrokerConfig : Type 0 where
  pub kind : String
  pub address : String

pub record AppConfig : Type 0 where
  pub service : ServiceConfig
  pub grpc : GrpcConfig
  pub keepalive : KeepaliveConfig
  pub http : HttpConfig
  pub broker : BrokerConfig
  pub client : ClientConfig
  pub auth : AuthConfig

abbrev pub default_tenant_claim : String
default_tenant_claim = "tenant_id"

abbrev pub default_legacy_tenant : String
default_legacy_tenant = "legacy"

-- `impl Default for JwtConfig` and `impl Default for AuthConfig`
abbrev pub default_jwt_config : JwtConfig
default_jwt_config = record {
  issuer = "";
  audience = "";
  clock_skew_secs = 30;
  hmac_secret = none;
  jwks_url = none;
}

abbrev pub default_auth_config : AuthConfig
default_auth_config = record {
  enabled = true;
  legacy_header_mode = true;
  tenant_claim = default_tenant_claim;
  legacy_tenant = default_legacy_tenant;
  api_keys = [];
  jwt = default_jwt_config;
}

-- What the file gives for the section `[auth]`; a field that has a default may be missing.
pub record AuthConfigRaw : Type 0 where
  pub enabled : Option Bool
  pub legacy_header_mode : Option Bool
  pub tenant_claim : Option String
  pub legacy_tenant : Option String
  pub api_keys : Option (List String)
  pub jwt : Option JwtConfig

-- `AuthConfig::deserialize`, behind the reading of the raw record.
unfoldable pub from_raw : AuthConfigRaw → AuthConfig
from_raw raw = record {
  enabled = unwrap_or raw.enabled true;
  legacy_header_mode = unwrap_or raw.legacy_header_mode true;
  tenant_claim = unwrap_or raw.tenant_claim default_tenant_claim;
  legacy_tenant = unwrap_or raw.legacy_tenant default_legacy_tenant;
  api_keys = unwrap_or raw.api_keys [];
  jwt = unwrap_or raw.jwt default_jwt_config;
}

abbrev pub bail_if : Bool → String → Result String (Unit {0})
bail_if true message = err message
bail_if false message = ok tt

unfoldable pub validate_auth : AuthConfig → Result String (Unit {0})
validate_auth auth = do
  bail_if (is_empty auth.jwt.issuer) "auth.jwt.issuer is required when auth is enabled"
  bail_if (is_empty auth.jwt.audience) "auth.jwt.audience is required when auth is enabled"
  bail_if (is_empty auth.tenant_claim) "auth.tenant_claim must not be empty"
  bail_if (is_empty (unwrap_or auth.jwt.hmac_secret ""))
      "auth.jwt.hmac_secret is required in this build"

-- `AppConfig::validate`
unfoldable pub validate : AppConfig → Result String (Unit {0})
unfolding validate_auth
validate cfg = do
  if cfg.auth.enabled then validate_auth cfg.auth else ok tt
  bail_if (cfg.grpc.ping_interval_secs == 0) "grpc.ping_interval_secs must be greater than zero"
  bail_if (cfg.grpc.ping_timeout_secs == 0) "grpc.ping_timeout_secs must be greater than zero"
  bail_if (cfg.keepalive.ws_ping_interval_secs == 0)
      "keepalive.ws_ping_interval_secs must be greater than zero"
  bail_if (cfg.keepalive.ws_pong_timeout_secs == 0)
      "keepalive.ws_pong_timeout_secs must be greater than zero"
  bail_if (cfg.keepalive.grpc_stream_idle_timeout_secs == 0)
      "keepalive.grpc_stream_idle_timeout_secs must be greater than zero"

-- `AppConfig::load`; the `config` crate reads a file into the settings.
unfoldable pub load : (String → Result String AppConfig) → String → Result String AppConfig
unfolding validate
load read path = do cfg ← read path; validate cfg; ok cfg
