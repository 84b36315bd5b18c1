-- ===== src/Propeller/Server/Entry.antt =====
-- Who a request is from: `extract_device`, `auth_client` and `authorize_publisher` of
-- approach-2/src/server/grpc_handler.rs, and the counting of authentications, which the WebSocket
-- handler shares.
use payment_processing.Common.{
  ℕ, ◌*◌, String, Bool, true, false, not, List, [], ◌∷◌, Option, none, some, Result, ok, err, ◌>>=◌,
  ◌>>◌, map_err, unwrap_or, if◌then◌else◌,
}
use payment_processing.Common.Text.{is_empty, ◌==◌ as same_text}
use payment_processing.Propeller.Config.{AuthConfig, ClientConfig, KeepaliveConfig}
use payment_processing.Propeller.Error.{Status, to_status}
use payment_processing.Propeller.Auth.Jwt.{Platform, AuthContext}
use payment_processing.Propeller.Auth.Service.{
  Headers, Metadata, authenticate_grpc, authorize_api_key_grpc,
}
use payment_processing.Propeller.Metrics.{Metrics, MetricsSnapshot, snapshot, increment}
use payment_processing.Propeller.Ports.{PubSub}
use payment_processing.Propeller.Action.{Fallible}
use payment_processing.Propeller.Push.{Attributes, Device, World}

-- The settings of `GrpcPushHandler` and of `WsState`; the push service has the same
-- `client_config`.
pub record Settings : Type 0 where
  pub auth : AuthConfig
  pub client_config : ClientConfig
  pub keepalive : KeepaliveConfig

-- `Duration::from_secs`, in nanoseconds.
abbrev pub from_secs : ℕ → ℕ
from_secs secs = secs * 1_000_000_000

-- `HashMap::insert`
abbrev pub insert_attr : String → String → Attributes → Attributes
insert_attr key value [] = (key, value) ∷ []
insert_attr key value ((k, v) ∷ attrs) =
    if same_text k key then (key, value) ∷ attrs else (k, v) ∷ insert_attr key value attrs

abbrev pub add_attr : String → Option String → Attributes → Attributes
add_attr key none attrs = attrs
add_attr key (some value) attrs = insert_attr key value attrs

-- The loop over `device_attribute_headers`.
abbrev pub collect_attrs : Headers → List String → Attributes → Attributes
collect_attrs headers [] attrs = attrs
collect_attrs headers (key ∷ keys) attrs =
    collect_attrs headers keys (add_attr key (headers key) attrs)

-- It never fails.
unfoldable pub extract_device : ClientConfig → Metadata → Result Status (Option Device)
extract_device client metadata =
    let device_id = unwrap_or (metadata client.device_header) "" in
    if not client.enable_device_support
    then ok none
    else if is_empty device_id
    then ok none
    else ok (
        some (record {
          id = device_id;
          attributes = collect_attrs metadata client.device_attribute_headers [];
        }))

module _ (platform : Platform) (settings : Settings) where
  unfoldable pub auth_client : Metadata → Result Status (AuthContext × Bool)
  auth_client metadata =
      map_err to_status (authenticate_grpc platform settings.auth metadata settings.client_config)

  unfoldable pub authorize_publisher : Metadata → Result Status AuthContext
  unfolding auth_client
  authorize_publisher metadata = do
    map_err to_status (authorize_api_key_grpc settings.auth metadata)
    (ctx, _) ← auth_client metadata
    ok ctx

abbrev pub count_legacy : Bool → Metrics → Metrics
count_legacy true m = record m { legacy_header_auth_total = increment m.legacy_header_auth_total }
count_legacy false m = m

module _ {S K : Type 0} where
  abbrev pub with_metrics : (Metrics → Metrics) → World S K → World S K
  with_metrics change w = record w { metrics = change w.metrics }

  -- What both handlers count of an authentication.
  abbrev pub count_auth :
      {E : Type 0} → Result E (AuthContext × Bool) → Fallible E (World S K) (AuthContext × Bool)
  count_auth (ok (ctx, legacy_mode)) w = (
    ok (ctx, legacy_mode),
    with_metrics
        (λ m.
          count_legacy legacy_mode
            (record m { auth_success_total = increment m.auth_success_total }))
        w,
  )
  count_auth (err e) w = (
    err e,
    with_metrics (λ m. record m { auth_failure_total = increment m.auth_failure_total }) w,
  )

-- The answer to `/metrics`: the counters, with the broker's own count of listeners.
unfoldable pub metrics_page : {S K : Type 0} → PubSub S → World S K → MetricsSnapshot
unfolding snapshot
metrics_page pubsub w = record (snapshot w.metrics) {
  active_topic_listeners = pubsub.active_topic_listeners w.pubsub;
}
