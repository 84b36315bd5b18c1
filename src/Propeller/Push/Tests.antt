-- ===== src/Propeller/Push/Tests.antt =====
-- The service over the broker and the store of Fixtures.
use payment_processing.Common.{◌+◌, ◌%◌, ◌^◌, String, ◌≡◌, refl, List, [], ◌∷◌, none, some, ok}
use payment_processing.Propeller.Error.{PropellerError}
use payment_processing.Propeller.Auth.Signature.{Bytes}
use payment_processing.Propeller.Channels.{topic_channel}
use payment_processing.Propeller.Metrics.{new}
use payment_processing.Propeller.Push.{
  World, Json, Device, SendEventToClientRequest, SendEventToTopicRequest, subscribe_client,
  unsubscribe_client, publish_to_topic, publish_to_topics, get_active_devices,
}
use payment_processing.Propeller.Push.Fixtures.{Log, recorder, fields, json, config, start, phone}
use payment_processing.Propeller.Store.{load, store, delete, redis_kv}
use payment_processing.Propeller.Store.Refinement.{redis_kv-IsStore}
use payment_processing.Propeller.Store.Memory.{Entries, memory, memory-AreHashes}
use payment_processing.Propeller.Push.Devices.{
  find_device, get_active_devices-subscribe_client, get_active_devices-unsubscribe_client,
}
use payment_processing.Propeller.Push.Counting.{
  Visit, arrive, leave, run, opened, closed, run-connections,
}
use payment_processing.Propeller.Push.Topics.{StoppedAt, publish_to_topics-StoppedAt}

abbrev visits : List Visit
visits =
    arrive "acme" "rider" (some phone)
    ∷ arrive "acme" "" none
    ∷ arrive "acme" "driver" none
    ∷ leave "acme" "rider" 5 (some phone)
    ∷ []

run-connections_example :
    ((run recorder fields json config visits start).metrics.connections
        + closed recorder fields json config visits)
      % 2 ^ 64
    ≡ (0 + opened recorder fields json config visits start) % 2 ^ 64
run-connections_example = run-connections recorder fields json config visits start

-- Two of the three were let in, and one has left.
one_connected : (run recorder fields json config visits start).metrics.connections ≡ 1
unfolding subscribe_client unsubscribe_client
one_connected = refl

abbrev to_topic : String → Bytes → SendEventToTopicRequest
to_topic topic event = record {
  tenant_id = "acme";
  topic = topic;
  event_name = "moved";
  event = event;
}

abbrev sent_one : World Log (List String)
sent_one = record start {
  pubsub = ("tenant:acme:topic:a", 1 ∷ []) ∷ [];
  metrics = record new { messages_published = 1 };
}

-- The second topic's event is refused by the broker: the first is out, the third is not tried.
publish_to_topics-StoppedAt_example :
    StoppedAt recorder fields json config
      (to_topic "a" (1 ∷ []) ∷ to_topic "b" (0 ∷ []) ∷ to_topic "c" (2 ∷ []) ∷ [])
      start
      (PropellerError.broker "down")
      sent_one
unfolding publish_to_topics publish_to_topic topic_channel
publish_to_topics-StoppedAt_example =
    publish_to_topics-StoppedAt recorder fields json config
      (to_topic "a" (1 ∷ []) ∷ to_topic "b" (0 ∷ []) ∷ to_topic "c" (2 ∷ []) ∷ []) start
      (PropellerError.broker "down") sent_one refl

abbrev to_rider : SendEventToClientRequest
to_rider = record { tenant_id = "acme"; client_id = "rider"; event_name = "moved"; event = 1 ∷ [] }

-- A service over the store in memory, and a codec that knows one text.
abbrev codec : Json
codec = record { to_string = λ attributes. ok "os"; from_str = λ text. some (("x-os", "ios") ∷ []) }

abbrev tablet : Device
tablet = record { id = "tablet"; attributes = ("x-os", "ios") ∷ [] }

abbrev quiet : World Log Entries
quiet = record { pubsub = []; kv = []; metrics = new }

abbrev joined : World Log Entries
joined = record quiet {
  kv = ("acme:rider", "tablet", "os") ∷ [];
  metrics = record new { connections = 1 };
}

get_active_devices-subscribe_client_example :
    find_device "tablet" (tablet ∷ []) ≡ some (("x-os", "ios") ∷ [])
unfolding subscribe_client get_active_devices redis_kv-IsStore load store
get_active_devices-subscribe_client_example =
    get_active_devices-subscribe_client recorder (redis_kv memory) codec config
      (redis_kv-IsStore memory memory-AreHashes) "acme" "rider" tablet "os" quiet joined joined 5
      (tablet ∷ []) refl refl refl refl refl refl

get_active_devices-unsubscribe_client_example : find_device "tablet" [] ≡ none
unfolding unsubscribe_client get_active_devices redis_kv-IsStore load delete
get_active_devices-unsubscribe_client_example =
    get_active_devices-unsubscribe_client recorder (redis_kv memory) codec config
      (redis_kv-IsStore memory memory-AreHashes) "acme" "rider" tablet joined quiet 5 [] refl refl
      refl
