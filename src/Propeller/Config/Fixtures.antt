-- ===== src/Propeller/Config/Fixtures.antt =====
-- The settings of approach-2/config/propeller.toml.
use payment_processing.Common.{true, [], ◌∷◌, none, some}
use payment_processing.Propeller.Config.{AppConfig}

abbrev pub propeller : AppConfig
propeller = record {
  service = record { name = "propeller" };
  grpc = record {
    address = "0.0.0.0:50051";
    ping_interval_secs = 30;
    ping_timeout_secs = 10;
    enable_reflection = true;
  };
  keepalive = record {
    ws_ping_interval_secs = 30;
    ws_pong_timeout_secs = 10;
    grpc_stream_idle_timeout_secs = 40;
  };
  http = record { address = "0.0.0.0:8080" };
  broker = record { kind = "redis"; address = "redis://127.0.0.1:6379" };
  client = record {
    header = "x-client-id";
    device_header = "x-device-id";
    enable_device_support = true;
    device_attribute_headers = "x-os" ∷ "x-app-version" ∷ [];
  };
  auth = record {
    enabled = true;
    legacy_header_mode = true;
    tenant_claim = "tenant_id";
    legacy_tenant = "legacy";
    api_keys = "dev-publisher-key" ∷ [];
    jwt = record {
      issuer = "propeller-dev";
      audience = "propeller-clients";
      clock_skew_secs = 30;
      hmac_secret = some "change-me-dev-secret";
      jwks_url = none;
    };
  };
}
