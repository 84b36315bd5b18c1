-- ===== src/Propeller/Server/Grpc/Tests.antt =====
-- A connection and a publisher, worked out.
use payment_processing.Common.{
  arith, ◌*◌, ◌%◌, ◌^◌, String, ◌≡◌, ◌⊎◌, inl, inr, refl, true, false, List, [], ◌∷◌, map, none,
  some, ok, err, Bool, zero, suc,
}
use payment_processing.Propeller.Auth.Signature.{Bytes}
use payment_processing.Propeller.Auth.Service.{
  authenticate_grpc, authorize_api_key_grpc, legacy_context, legacy_context_from_grpc,
  extract_grpc_bearer,
}
use payment_processing.Propeller.Channels.{topic_channel}
use payment_processing.Propeller.Push.{
  topic_subscribe, subscribe_client, unsubscribe_client, publish_to_topics, publish_to_topic,
}
use payment_processing.Propeller.Push.Fixtures.{Log, recorder, fields, json, start, send}
use payment_processing.Propeller.Server.Fixtures.{platform, settings, metadata, second, visit}
use payment_processing.Propeller.Server.Messages.{
  topic_subscription_request_ack, connect_ack, ok_status,
}
use payment_processing.Propeller.Server.Entry.{auth_client, authorize_publisher, extract_device}
use payment_processing.Propeller.Server.Grpc.{send_event_to_topics}
use payment_processing.Propeller.Server.Grpc.Channel.{
  Session, keepalive_tick, Happening, opened, channel, serve,
}
use payment_processing.Propeller.Server.Grpc.Sessions.{Accounted, channel-Accounted}
use payment_processing.Propeller.Server.Grpc.Keepalive.{silent_channel_ends}
use payment_processing.Propeller.Broker
use payment_processing.Propeller.Broker.Delivery.{run_listener, arrivals}
use payment_processing.Propeller.Server.Grpc.Delivery.{received, responses, run_listener-serve}
use payment_processing.Propeller.Server.Grpc.Publishing.{HasKey, answer-HasKey}
use payment_processing.Propeller.Error.{Status}
use payment_processing.Propeller.Auth.Jwt.{AuthContext}
use payment_processing.Propeller.Server.Grpc.Publishers.{
  IsObserved, Publication, to_topics, answer, Confined,
}

channel-Accounted_example :
    Accounted recorder fields json platform settings 0
      (channel recorder fields json platform settings metadata 0 visit start)
channel-Accounted_example =
    channel-Accounted recorder fields json platform settings metadata 0 visit start

abbrev session : Session
session = record { tenant_id = "legacy"; client_id = "rider"; device = none; sub = 5 }

abbrev ticks : List Happening
ticks =
    record { at = 40 * second; is_read = true; wake = keepalive_tick }
    ∷ record { at = 41 * second; is_read = true; wake = keepalive_tick }
    ∷ []

silent_channel_ends_example :
    (serve recorder fields json settings session ticks (opened 0 start)).0 ≡ false
silent_channel_ends_example =
    silent_channel_ends recorder fields json settings session ticks (opened 0 start) (tt, (tt, tt))
      (inr (inl (refl, omega arith)))

-- The channels of the log.
abbrev names : Log → List String
names = map (λ (channel, event). channel)

once :
    (channel : String) (event : Bytes) (log : Log)
    → (names (send channel event log).1 ≡ names log)
      ⊎ (names (send channel event log).1 ≡ channel ∷ names log)
once channel [] log = inr refl
once channel (zero ∷ event) log = inl refl
once channel (suc n ∷ event) log = inr refl

abbrev seen : IsObserved recorder
seen = record { channels = names; publishes = once }

abbrev publication : Publication
publication = to_topics (
    record { topic = "t"; event = some (record { name = ""; format_type = 0; payload = 1 ∷ [] }) }
    ∷ [])

answer-HasKey_example :
    let end = answer recorder fields json platform settings publication metadata start in
    ((ctx : AuthContext) × (flag : Bool) × HasKey settings metadata
      × (auth_client platform settings metadata ≡ ok (ctx, flag))
      × Confined recorder fields json seen ctx.tenant_id start end.1)
    ⊎ ((status : Status) × (end ≡ (err status, start))
        × ((¬ (HasKey settings metadata))
            ⊎ ((e : Status) × (auth_client platform settings metadata ≡ err e))))
answer-HasKey_example =
    answer-HasKey recorder fields json platform settings seen publication metadata start

-- The topic is acknowledged, the stream closed, and the client gone.
visit_sent :
    (channel recorder fields json platform settings metadata 0 visit start).0
    ≡ ok
        (false, ok (connect_ack ok_status) ∷ ok (topic_subscription_request_ack "t" ok_status) ∷ [])
unfolding channel topic_subscribe subscribe_client unsubscribe_client auth_client extract_device
    authenticate_grpc legacy_context_from_grpc legacy_context extract_grpc_bearer serve
visit_sent = refl

published_once :
    names (answer recorder fields json platform settings publication metadata start).1.pubsub
    ≡ "tenant:legacy:topic:t" ∷ []
unfolding send_event_to_topics authorize_publisher authorize_api_key_grpc authenticate_grpc
    legacy_context_from_grpc legacy_context extract_grpc_bearer publish_to_topics publish_to_topic
    topic_channel
published_once = refl

-- Two messages on a topic of the client.
abbrev news : List (String × Bytes)
news = ("tenant:legacy:topic:t", 1 ∷ []) ∷ ("tenant:legacy:topic:t", 2 ∷ []) ∷ []

run_listener-serve_example :
    let (events, b') = run_listener 0 (arrivals news) Broker.new in
    let (runs, c') =
      serve recorder fields json settings session (received second events) (opened 0 start) in
    (b' ≡ Broker.new)
    × (runs ≡ true)
    × (c'.sent ≡ ok (connect_ack ok_status) ∷ responses news)
    × (c'.world.metrics.messages_delivered % 2 ^ 64 ≡ 2)
    × (c'.world.metrics.connections ≡ 0)
run_listener-serve_example =
    run_listener-serve recorder fields json settings session second 0 news Broker.new
      (opened 0 start)
