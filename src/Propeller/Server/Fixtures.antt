-- ===== src/Propeller/Server/Fixtures.antt =====
-- A platform, settings, a caller's metadata and a visit, for the tests.
use payment_processing.Common.{ℕ, ◌*◌, true, List, [], ◌∷◌, none, some, if◌then◌else◌}
use payment_processing.Common.Text.{◌==◌ as same_text}
use payment_processing.Propeller.Config.{default_auth_config}
use payment_processing.Propeller.Auth.Jwt.{Platform}
use payment_processing.Propeller.Auth.Service.{Metadata}
use payment_processing.Propeller.Push.Fixtures.{config}
use payment_processing.Propeller.Server.Messages.{topic_subscription_request}
use payment_processing.Propeller.Server.Entry.{Settings}
use payment_processing.Propeller.Server.Grpc.Channel.{message, stream_closed, Happening}

abbrev pub platform : Platform
platform = record {
  as_bytes = λ text. [];
  sha256 = λ bytes. bytes;
  decode_base64 = some;
  from_slice = λ bytes. none;
  now = some 0;
}

abbrev pub settings : Settings
settings = record {
  auth = record default_auth_config {
    enabled = true;
    legacy_header_mode = true;
    legacy_tenant = "legacy";
    api_keys = "alpha" ∷ [];
  };
  client_config = config;
  keepalive = record {
    ws_ping_interval_secs = 30;
    ws_pong_timeout_secs = 10;
    grpc_stream_idle_timeout_secs = 40;
  };
}

abbrev pub metadata : Metadata
metadata name =
    if same_text name "x-api-key"
    then some "alpha"
    else if same_text name "x-client-id"
    then some "rider"
    else none

abbrev pub second : ℕ
second = 1_000_000_000

-- The client follows a topic, and closes the stream.
abbrev pub visit : List Happening
visit =
    record { at = second; is_read = true; wake = message (some (topic_subscription_request "t")) }
    ∷ record { at = 2 * second; is_read = true; wake = stream_closed }
    ∷ []
