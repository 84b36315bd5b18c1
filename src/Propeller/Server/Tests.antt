-- ===== src/Propeller/Server/Tests.antt =====
-- A visit over the Redis broker, by gRPC and by WebSocket, and the devices of a caller.
use payment_processing.Common.{ℕ, ◌*◌, String, ◌≡◌, refl, true, List, [], ◌∷◌}
use payment_processing.Propeller.Metrics
use payment_processing.Propeller.Ports.{PubSub}
use payment_processing.Propeller.Push.{World, topic_subscribe, subscribe_client, unsubscribe_client}
use payment_processing.Propeller.Push.Fixtures.{Log, recorder, fields, json, start, send}
use payment_processing.Propeller.Broker
use payment_processing.Propeller.Broker.Redis.{Live, redis_pubsub}
use payment_processing.Propeller.Server.Fixtures.{platform, settings, metadata, visit, second}
use payment_processing.Propeller.Server.Entry.{auth_client, extract_device}
use payment_processing.Propeller.Auth.Service.{
  authenticate_http, authenticate_grpc, legacy_context_from_grpc, legacy_context,
  extract_grpc_bearer,
}
use payment_processing.Propeller.Server.Grpc.{get_client_active_devices}
use payment_processing.Propeller.Server.Grpc.Channel.{channel, serve}
use payment_processing.Propeller.Server.Grpc.Live.{KeepsSubscriptions, channel-KeepsSubscriptions}
use payment_processing.Propeller.Server.Ws
use payment_processing.Propeller.Server.Ws.{ping_tick, pong_frame, close_frame, ws_connect}
use payment_processing.Propeller.Server.Ws.Release
use payment_processing.Propeller.Server.Ws.Release.{ws_connect-KeepsSubscriptions}
use payment_processing.Propeller.Server.Grpc.Devices.{OwnOnly, get_client_active_devices-OwnOnly}

abbrev uuid_text : ℕ → String
uuid_text n = "id"

abbrev broker : PubSub (Live Log)
broker = redis_pubsub uuid_text send

-- Another client is subscribed already.
abbrev live : World (Live Log) (List String)
live = record {
  pubsub = record {
    broker = record Broker.new { subscriptions = (7, []) ∷ [] };
    replies = [];
    redis = [];
  };
  kv = [];
  metrics = Metrics.new;
}

channel-KeepsSubscriptions_example :
    KeepsSubscriptions
      ((7, []) ∷ [])
      (channel broker fields json platform settings metadata 0 visit live)
channel-KeepsSubscriptions_example =
    channel-KeepsSubscriptions uuid_text send fields json settings platform metadata 0 visit live

-- A client that opens a WebSocket, answers a ping and goes.
abbrev socket_visit : List Ws.Happening
socket_visit =
    record { at = second; is_writable = true; wake = ping_tick }
    ∷ record { at = 2 * second; is_writable = true; wake = pong_frame [] }
    ∷ record { at = 3 * second; is_writable = true; wake = close_frame }
    ∷ []

ws_connect-KeepsSubscriptions_example :
    Release.KeepsSubscriptions
      ((7, []) ∷ [])
      (ws_connect broker fields json platform settings metadata 0 true socket_visit live)
ws_connect-KeepsSubscriptions_example =
    ws_connect-KeepsSubscriptions uuid_text send fields json settings platform metadata 0 true
      socket_visit live

get_client_active_devices-OwnOnly_example :
    OwnOnly recorder fields json platform settings metadata "driver" start
      (auth_client platform settings metadata)
      (get_client_active_devices recorder fields json platform settings metadata "driver" start)
get_client_active_devices-OwnOnly_example =
    get_client_active_devices-OwnOnly recorder fields json platform settings metadata "driver" start

visit_released :
    (channel broker fields json platform settings metadata 0 visit
      live).1.pubsub.broker.subscriptions
    ≡ (7, []) ∷ []
unfolding channel topic_subscribe subscribe_client unsubscribe_client auth_client extract_device
    authenticate_grpc legacy_context_from_grpc legacy_context extract_grpc_bearer serve
    Broker.subscribe Broker.add_subscription Broker.unsubscribe
visit_released = refl

socket_released :
    (ws_connect broker fields json platform settings metadata 0 true socket_visit
      live).1.pubsub.broker.subscriptions
    ≡ (7, []) ∷ []
unfolding ws_connect authenticate_http subscribe_client Broker.subscribe unsubscribe_client
    Broker.unsubscribe
socket_released = refl
