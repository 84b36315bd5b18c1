-- ===== src/Propeller/Server/Grpc/Publishers.antt =====
-- What a publisher's call may publish.
use mathlib.Core.List.{map-append}
use payment_processing.Common.{
  String, ◌≡◌, ◌⊎◌, inl, inr, refl, ap, sym, subst, ◌∙◌, List, [], ◌∷◌, ◌++◌, map, append_assoc,
  Result, ok, err, arith,
}
use payment_processing.Propeller.Config.{ClientConfig}
use payment_processing.Propeller.Channels.{client_channel, device_channel, topic_channel}
use payment_processing.Propeller.Channels.Isolation.{Channel, client, device, topic, channel_name}
use payment_processing.Propeller.Error.{Status}
use payment_processing.Propeller.Auth.Signature.{Bytes}
use payment_processing.Propeller.Auth.Jwt.{Platform, AuthContext}
use payment_processing.Propeller.Auth.Service.{Metadata}
use payment_processing.Propeller.Action.{Fallible, Action, after, give, ◌>>◌, outcome}
use payment_processing.Propeller.Ports.{PubSub, KeyValue}
use payment_processing.Propeller.Push.{
  World, Json, SendEventToClientRequest, SendEventToClientDeviceRequest, SendEventToTopicRequest,
  publish_to_client, publish_to_client_device, publish_to_topic, publish_to_topics,
}
use payment_processing.Propeller.Server.Messages.{
  ResponseStatus, ok_status, extract_event, ClientChannelRequest, ClientDeviceChannelRequest,
  TopicRequest,
}
use payment_processing.Propeller.Server.Entry.{Settings, authorize_publisher}
use payment_processing.Propeller.Server.Grpc.{
  send_event_to_client_channel, send_event_to_client_device_channel, send_event_to_topic,
  send_event_to_topics, topic_request_for, lift, push,
}

-- What can be seen of a broker: the channels on which something was published, the latest first. A
-- broker publishes on the channel that it is told, or fails and does not.
pub record IsObserved {S : Type 0} (pubsub : PubSub S) : Type 0 where
  pub channels : S → List String
  pub publishes :
      (channel : String) (event : Bytes) (s : S)
      → (channels (pubsub.publish channel event s).1 ≡ channels s)
        ⊎ (channels (pubsub.publish channel event s).1 ≡ channel ∷ channels s)

module _ {S K : Type 0} (pubsub : PubSub S) (kv : KeyValue K) (json : Json)
    (seen : IsObserved pubsub) where
  -- From one state to the other, only channels of the tenant were published on.
  abbrev pub Confined : String → World S K → World S K → Type 0
  Confined tenant_id w end =
      (added : List Channel) × (seen.channels end.pubsub
        ≡ map (channel_name tenant_id) added ++ seen.channels w.pubsub)

  module _ (config : ClientConfig) where
    publish_to_client-pubsub :
        (req : SendEventToClientRequest) (w : World S K)
        → let end = (publish_to_client pubsub kv json config req w).1 in
          (end.pubsub ≡ w.pubsub)
          ⊎ (end.pubsub
              ≡ (pubsub.publish (client_channel req.tenant_id req.client_id) req.event w.pubsub).1)
    unfolding publish_to_client
    publish_to_client-pubsub req w = ground arith

    publish_to_client_device-pubsub :
        (req : SendEventToClientDeviceRequest) (w : World S K)
        → let end = (publish_to_client_device pubsub kv json config req w).1 in
          (end.pubsub ≡ w.pubsub)
          ⊎ (end.pubsub
              ≡ (pubsub.publish
                  (device_channel req.tenant_id req.client_id req.device_id)
                  req.event
                  w.pubsub).1)
    unfolding publish_to_client_device
    publish_to_client_device-pubsub req w = ground arith

    publish_to_topic-pubsub :
        (req : SendEventToTopicRequest) (w : World S K)
        → let end = (publish_to_topic pubsub kv json config req w).1 in
          (end.pubsub ≡ w.pubsub)
          ⊎ (end.pubsub
              ≡ (pubsub.publish (topic_channel req.tenant_id req.topic) req.event w.pubsub).1)
    unfolding publish_to_topic
    publish_to_topic-pubsub req w = ground arith

  Confined-self : (t : String) (w : World S K) → Confined t w w
  Confined-self t w = ([], refl)

  Confined-trans :
      (t : String) (u v w : World S K) → Confined t u v → Confined t v w → Confined t u w
  Confined-trans t u v w (first, e) (later, f) = (
    later ++ first,
    f
        ∙ ap (λ cs. map (channel_name t) later ++ cs) e
        ∙ sym (
            append_assoc (map (channel_name t) later) (map (channel_name t) first)
              (seen.channels u.pubsub))
        ∙ ap (λ cs. cs ++ seen.channels u.pubsub) (sym (map-append (channel_name t) later first)),
  )

  Confined-once :
      (t : String) (d : Channel) (event : Bytes) (w end : World S K)
      → (end.pubsub ≡ w.pubsub)
        ⊎ (end.pubsub ≡ (pubsub.publish (channel_name t d) event w.pubsub).1)
      → Confined t w end
  Confined-once t d event w end (inl same) = ([], ap seen.channels same)
  Confined-once t d event w end (inr sent) =
      elim (seen.publishes (channel_name t d) event w.pubsub) [
        | inl none_more ↦ ([], ap seen.channels sent ∙ none_more)
        | inr one_more ↦ (d ∷ [], ap seen.channels sent ∙ one_more)
      ]

  publish_to_client-Confined :
      (config : ClientConfig) (req : SendEventToClientRequest) (w : World S K)
      → Confined req.tenant_id w (publish_to_client pubsub kv json config req w).1
  publish_to_client-Confined config req w =
      Confined-once req.tenant_id (client req.client_id) req.event w
        (publish_to_client pubsub kv json config req w).1 (publish_to_client-pubsub config req w)

  publish_to_client_device-Confined :
      (config : ClientConfig) (req : SendEventToClientDeviceRequest) (w : World S K)
      → Confined req.tenant_id w (publish_to_client_device pubsub kv json config req w).1
  publish_to_client_device-Confined config req w =
      Confined-once req.tenant_id (device req.client_id req.device_id) req.event w
        (publish_to_client_device pubsub kv json config req w).1
        (publish_to_client_device-pubsub config req w)

  publish_to_topic-Confined :
      (config : ClientConfig) (req : SendEventToTopicRequest) (w : World S K)
      → Confined req.tenant_id w (publish_to_topic pubsub kv json config req w).1
  publish_to_topic-Confined config req w =
      Confined-once req.tenant_id (topic req.topic) req.event w
        (publish_to_topic pubsub kv json config req w).1 (publish_to_topic-pubsub config req w)

  publish_to_topics-Confined :
      (config : ClientConfig) (t : String) (requests : List TopicRequest) (w : World S K)
      → Confined t w
          (publish_to_topics pubsub kv json config (map (topic_request_for t) requests) w).1
  unfolding publish_to_topics
  publish_to_topics-Confined config t [] w = Confined-self t w
  publish_to_topics-Confined config t (req ∷ requests) w =
      let first = topic_request_for t req in
      let once : Confined t w (publish_to_topic pubsub kv json config first w).1 =
        publish_to_topic-Confined config first w in
      elim (outcome (publish_to_topic pubsub kv json config first w)) [
        | inl (u, end, eq) ↦ rw eq (
            Confined-trans t w end
              (publish_to_topics pubsub kv json config (map (topic_request_for t) requests) end).1
              (subst (λ r. Confined t w r.1) eq once)
              (publish_to_topics-Confined config t requests end))
        | inr (e, end, eq) ↦ rw eq (subst (λ r. Confined t w r.1) eq once)
      ]

-- A publisher's call.
pub data Publication : Type 0 where
  to_client : ClientChannelRequest → Publication
  to_device : ClientDeviceChannelRequest → Publication
  to_topic : TopicRequest → Publication
  to_topics : List TopicRequest → Publication

module _ {S K : Type 0} (pubsub : PubSub S) (kv : KeyValue K) (json : Json) (platform : Platform)
    (settings : Settings) where
  abbrev pub answer : Publication → Metadata → Fallible Status (World S K) ResponseStatus
  answer (to_client req) metadata =
      send_event_to_client_channel pubsub kv json platform settings metadata req
  answer (to_device req) metadata =
      send_event_to_client_device_channel pubsub kv json platform settings metadata req
  answer (to_topic req) metadata = send_event_to_topic pubsub kv json platform settings metadata req
  answer (to_topics requests) metadata =
      send_event_to_topics pubsub kv json platform settings metadata requests

  -- What the authorisation of a call allows it to leave behind.
  abbrev pub Allowed :
      IsObserved pubsub
      → World S K
      → Result Status AuthContext
      → Result Status ResponseStatus × World S K
      → Type 0
  Allowed seen w (err status) end = end ≡ (err status, w)
  Allowed seen w (ok publisher) end = Confined pubsub kv json seen publisher.tenant_id w end.1

  -- The status in place of the push service's result, and the same state.
  pushed-world :
      {A : Type 0} (m : Action (World S K) A) (w : World S K)
      → (after (push m w) (λ _. give ok_status)).1 ≡ (m w).1
  pushed-world m w = elim (outcome (m w)) [
    | inl (a, end, eq) ↦ rw eq refl
    | inr (e, end, eq) ↦ rw eq refl
  ]

  Allowed-after :
      {A : Type 0} (seen : IsObserved pubsub) (m : String → Action (World S K) A) (w : World S K)
      → ((t : String) → Confined pubsub kv json seen t w (m t w).1)
      → (caller : Result Status AuthContext)
      → Allowed seen w caller
          (after (lift caller w) (λ publisher. push (m publisher.tenant_id) >> give ok_status))
  Allowed-after seen m w confined (err status) = refl
  Allowed-after seen m w confined (ok publisher) =
      subst (Confined pubsub kv json seen publisher.tenant_id w)
        (sym (pushed-world (m publisher.tenant_id) w)) (confined publisher.tenant_id)

  abbrev client_request : ClientChannelRequest → String → SendEventToClientRequest
  client_request req t = record {
    tenant_id = t;
    client_id = req.client_id;
    event_name = (extract_event req.event).1;
    event = (extract_event req.event).0;
  }

  abbrev device_request : ClientDeviceChannelRequest → String → SendEventToClientDeviceRequest
  device_request req t = record {
    tenant_id = t;
    client_id = req.client_id;
    device_id = req.device_id;
    event_name = (extract_event req.event).1;
    event = (extract_event req.event).0;
  }

  -- What a publisher's call does, by what `authorize_publisher` says of its caller.
  pub answer-Allowed :
      (seen : IsObserved pubsub) (publication : Publication) (metadata : Metadata) (w : World S K)
      → Allowed seen w
          (authorize_publisher platform settings metadata)
          (answer publication metadata w)
  unfolding send_event_to_client_channel send_event_to_client_device_channel send_event_to_topic
      send_event_to_topics
  answer-Allowed seen (to_client req) metadata w =
      Allowed-after seen
        (λ t. publish_to_client pubsub kv json settings.client_config (client_request req t)) w
        (λ t.
          publish_to_client-Confined pubsub kv json seen settings.client_config
            (client_request req t) w)
        (authorize_publisher platform settings metadata)
  answer-Allowed seen (to_device req) metadata w =
      Allowed-after seen
        (λ t. publish_to_client_device pubsub kv json settings.client_config (device_request req t))
        w
        (λ t.
          publish_to_client_device-Confined pubsub kv json seen settings.client_config
            (device_request req t) w)
        (authorize_publisher platform settings metadata)
  answer-Allowed seen (to_topic req) metadata w =
      Allowed-after seen
        (λ t. publish_to_topic pubsub kv json settings.client_config (topic_request_for t req)) w
        (λ t.
          publish_to_topic-Confined pubsub kv json seen settings.client_config
            (topic_request_for t req) w)
        (authorize_publisher platform settings metadata)
  answer-Allowed seen (to_topics requests) metadata w =
      Allowed-after seen
        (λ t.
          publish_to_topics pubsub kv json settings.client_config
            (map (topic_request_for t) requests))
        w (λ t. publish_to_topics-Confined pubsub kv json seen settings.client_config t requests w)
        (authorize_publisher platform settings metadata)
