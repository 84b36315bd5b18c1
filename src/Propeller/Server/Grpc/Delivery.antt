-- ===== src/Propeller/Server/Grpc/Delivery.antt =====
-- From Redis to a client: the messages that a listener of the broker hands to a subscription, through
-- the task of its channel.
use payment_processing.Common.{
  ℕ, ◌+◌, ◌%◌, ◌^◌, ◌≡◌, refl, ◌∙◌, sym, true, String, List, [], ◌∷◌, ◌++◌, Result, ok, arith,
  length, append-nil, append_assoc,
}
use payment_processing.Propeller.Error.{Status}
use payment_processing.Propeller.Auth.Signature.{Bytes}
use payment_processing.Propeller.Ports.{PubSub, KeyValue}
use payment_processing.Propeller.Push.{Json}
use payment_processing.Propeller.Broker.{Broker}
use payment_processing.Propeller.Broker.Delivery.{
  TopicEvent, run_listener, arrivals, events_of, run_listener-arrivals,
}
use payment_processing.Propeller.Server.Messages.{Response, event_response}
use payment_processing.Propeller.Server.Entry.{Settings}
use payment_processing.Propeller.Server.Loop.{loop}
use payment_processing.Propeller.Server.Grpc.Channel.{
  Session, Channel, topic_event, Happening, turn, serve,
}

-- The events of a subscription as its task receives them, from a client that reads.
abbrev pub received : ℕ → List TopicEvent → List Happening
received now [] = []
received now (e ∷ events) =
    record { at = now; is_read = true; wake = topic_event e.topic e.event } ∷ received now events

-- What the client is sent for messages of Redis.
abbrev pub responses : List (String × Bytes) → List (Result Status Response)
responses [] = []
responses ((channel, bytes) ∷ messages) =
    ok (event_response (record { name = ""; format_type = 0; payload = bytes }) channel)
    ∷ responses messages

module _ {S K : Type 0} (pubsub : PubSub S) (kv : KeyValue K) (json : Json) (settings : Settings)
    (session : Session) where
  serve-received :
      (now : ℕ) (messages : List (String × Bytes)) (c : Channel S K)
      → let (runs, c') =
          serve pubsub kv json settings session (received now (events_of messages)) c in
        (runs ≡ true)
        × (c'.sent ≡ c.sent ++ responses messages)
        × (c'.world.metrics.messages_delivered % 2 ^ 64
            ≡ (c.world.metrics.messages_delivered + length messages) % 2 ^ 64)
        × (c'.world.metrics.connections ≡ c.world.metrics.connections)
  unfolding serve turn loop
  serve-received now [] c = (refl, sym (append-nil c.sent), omega arith, refl)
  serve-received now ((channel, bytes) ∷ messages) c =
      let response =
        ok (event_response (record { name = ""; format_type = 0; payload = bytes }) channel) in
      let c' = (turn pubsub kv json settings session (topic_event channel bytes) now true c).1 in
      let (runs, sent, delivered, connections) = serve-received now messages c' in
      (
        runs,
        sent ∙ append_assoc c.sent (response ∷ []) (responses messages),
        omega (arith, delivered),
        connections,
      )

  -- The messages that Redis hands to a listener of a subscription, while the subscription takes them
  -- and the client reads, reach the client each once and in order, with their channel and their
  -- bytes and no name; the listener and the channel run on, and the count of deliveries grows by as
  -- many, modulo 2 ^ 64.
  pub run_listener-serve :
      (now task : ℕ) (messages : List (String × Bytes)) (b : Broker) (c : Channel S K)
      → let (events, b') = run_listener task (arrivals messages) b in
        let (runs, c') = serve pubsub kv json settings session (received now events) c in
        (b' ≡ b)
        × (runs ≡ true)
        × (c'.sent ≡ c.sent ++ responses messages)
        × (c'.world.metrics.messages_delivered % 2 ^ 64
            ≡ (c.world.metrics.messages_delivered + length messages) % 2 ^ 64)
        × (c'.world.metrics.connections ≡ c.world.metrics.connections)
  run_listener-serve now task messages b c =
      let (runs, sent, delivered, connections) = serve-received now messages c in
      rw (run_listener-arrivals task messages b) (refl, runs, sent, delivered, connections)
