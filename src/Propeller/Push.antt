-- ===== src/Propeller/Push.antt =====
-- approach-2/src/push: the requests of models.rs and the operations of service.rs.
pub mod Counting
pub mod Topics
pub mod Devices
pub mod Subscriptions
pub mod Fixtures
mod Tests
use payment_processing.Common.{
  ℕ, String, Bool, true, false, not, List, [], ◌∷◌, ◌++◌, map, Option, none, some, Result, ok, err,
  map_err, unwrap_or, if◌then◌else◌,
}
use payment_processing.Common.Text.{is_empty, ◌++◌ as join}
use payment_processing.Propeller.Config.{ClientConfig}
use payment_processing.Propeller.Channels.{client_channel, device_channel, topic_channel}
use payment_processing.Propeller.Error.{
  PropellerError, invalid_argument, failed_precondition, internal, broker,
}
use payment_processing.Propeller.Auth.Signature.{Bytes}
use payment_processing.Propeller.Metrics.{Metrics, increment, decrement}
use payment_processing.Propeller.Action.{Action, ◌>>=◌, ◌>>◌, give, bail_if}
use payment_processing.Propeller.Ports.{PubSub, KeyValue}

abbrev pub Attributes : Type 0
Attributes = List (String × String)

pub record Device : Type 0 where
  pub id : String
  pub attributes : Attributes

pub record SendEventToClientRequest : Type 0 where
  pub tenant_id : String
  pub client_id : String
  pub event_name : String
  pub event : Bytes

pub record SendEventToClientDeviceRequest : Type 0 where
  pub tenant_id : String
  pub client_id : String
  pub device_id : String
  pub event_name : String
  pub event : Bytes

pub record SendEventToTopicRequest : Type 0 where
  pub tenant_id : String
  pub topic : String
  pub event_name : String
  pub event : Bytes

pub record GetActiveDevicesRequest : Type 0 where
  pub tenant_id : String
  pub client_id : String

-- serde's writing and reading of the attributes.
pub record Json : Type 0 where
  pub to_string : Attributes → Result String String
  pub from_str : String → Option Attributes

-- What the service changes: the broker's state, the store's and the counters.
pub record World (S K : Type 0) : Type 0 where
  pub pubsub : S
  pub kv : K
  pub metrics : Metrics

abbrev pub no_bytes : Bytes → Bool
no_bytes [] = true
no_bytes (b ∷ bytes) = false

abbrev pub device_key : String → String → String
device_key tenant_id client_id = join tenant_id (join ":" client_id)

module _ {S K : Type 0} where
  -- A call of the broker or of the store, with its error wrapped.
  abbrev pub call_broker :
      {A : Type 0} → (String → PropellerError) → (S → Result String A × S) → Action (World S K) A
  call_broker wrap op w = let (r, s) = op w.pubsub in (map_err wrap r, record w { pubsub = s })

  abbrev pub call_store :
      {A : Type 0} → (String → PropellerError) → (K → Result String A × K) → Action (World S K) A
  call_store wrap op w = let (r, k) = op w.kv in (map_err wrap r, record w { kv = k })

  -- The same where the error is only logged.
  abbrev pub log_broker : (S → Result String (Unit {0}) × S) → Action (World S K) (Unit {0})
  log_broker op w = (ok tt, record w { pubsub = (op w.pubsub).1 })

  abbrev pub log_store : (K → Result String (Unit {0}) × K) → Action (World S K) (Unit {0})
  log_store op w = (ok tt, record w { kv = (op w.kv).1 })

  abbrev pub count_connection : Action (World S K) (Unit {0})
  count_connection w = (
    ok tt,
    record w { metrics = record w.metrics { connections = increment w.metrics.connections } },
  )

  abbrev pub discount_connection : Action (World S K) (Unit {0})
  discount_connection w = (
    ok tt,
    record w { metrics = record w.metrics { connections = decrement w.metrics.connections } },
  )

  abbrev pub count_published : Action (World S K) (Unit {0})
  count_published w = (
    ok tt,
    record w {
      metrics = record w.metrics { messages_published = increment w.metrics.messages_published };
    },
  )

-- The device, where device support is on.
abbrev pub supported : Bool → Option Device → Option Device
supported enabled device = if enabled then device else none

module _ {S K : Type 0} (pubsub : PubSub S) (kv : KeyValue K) (json : Json)
    (config : ClientConfig) where
  abbrev pub device_channels : String → String → Option Device → Action (World S K) (List String)
  device_channels tenant_id client_id none = give []
  device_channels tenant_id client_id (some dev) = do
    bail_if (is_empty dev.id)
        (invalid_argument "device id is required when device support is enabled")
    give (device_channel tenant_id client_id dev.id ∷ [])

  abbrev pub attrs_json : Device → Action (World S K) String
  attrs_json dev w = (map_err internal (json.to_string dev.attributes), w)

  abbrev pub store_device : String → String → Option Device → Action (World S K) (Unit {0})
  store_device tenant_id client_id none = give tt
  store_device tenant_id client_id (some dev) = do
    attrs ← attrs_json dev
    log_store (kv.store (device_key tenant_id client_id) dev.id attrs)

  abbrev pub delete_device : String → String → Option Device → Action (World S K) (Unit {0})
  delete_device tenant_id client_id none = give tt
  delete_device tenant_id client_id (some dev) =
      log_store (kv.delete (device_key tenant_id client_id) (dev.id ∷ []))

  unfoldable pub subscribe_client : String → String → Option Device → Action (World S K) ℕ
  subscribe_client tenant_id client_id device = do
    bail_if (is_empty tenant_id) (invalid_argument "tenant id is required")
    bail_if (is_empty client_id) (invalid_argument "client id is required")
    channels ← device_channels tenant_id client_id (supported config.enable_device_support device)
    sub ← call_broker internal (pubsub.subscribe (client_channel tenant_id client_id ∷ channels))
    store_device tenant_id client_id (supported config.enable_device_support device)
    count_connection
    give sub

  unfoldable pub unsubscribe_client :
      String → String → ℕ → Option Device → Action (World S K) (Unit {0})
  unsubscribe_client tenant_id client_id sub device = do
    delete_device tenant_id client_id (supported config.enable_device_support device)
    log_broker (pubsub.unsubscribe sub)
    discount_connection

  unfoldable pub publish_to_client : SendEventToClientRequest → Action (World S K) (Unit {0})
  publish_to_client req = do
    bail_if (is_empty req.tenant_id) (invalid_argument "tenant id is empty")
    bail_if (is_empty req.client_id) (invalid_argument "client id is empty")
    bail_if (no_bytes req.event) (invalid_argument "event is empty")
    call_broker broker (pubsub.publish (client_channel req.tenant_id req.client_id) req.event)
    count_published

  unfoldable pub publish_to_client_device :
      SendEventToClientDeviceRequest → Action (World S K) (Unit {0})
  publish_to_client_device req = do
    bail_if (not config.enable_device_support) (failed_precondition "device support is disabled")
    bail_if (is_empty req.client_id) (invalid_argument "client id is empty")
    bail_if (is_empty req.device_id) (invalid_argument "device id is empty")
    bail_if (no_bytes req.event) (invalid_argument "event is empty")
    call_broker broker
        (pubsub.publish (device_channel req.tenant_id req.client_id req.device_id) req.event)
    count_published

  unfoldable pub publish_to_topic : SendEventToTopicRequest → Action (World S K) (Unit {0})
  publish_to_topic req = do
    bail_if (is_empty req.tenant_id) (invalid_argument "tenant id is empty")
    bail_if (is_empty req.topic) (invalid_argument "topic is empty")
    bail_if (no_bytes req.event) (invalid_argument "event is empty")
    call_broker broker (pubsub.publish (topic_channel req.tenant_id req.topic) req.event)
    count_published

  unfoldable pub publish_to_topics : List SendEventToTopicRequest → Action (World S K) (Unit {0})
  publish_to_topics [] = give tt
  publish_to_topics (req ∷ requests) = publish_to_topic req >> publish_to_topics requests

  unfoldable pub topic_subscribe : String → String → ℕ → Action (World S K) (Unit {0})
  topic_subscribe tenant_id topic sub = do
    bail_if (is_empty topic) (invalid_argument "topic is empty")
    bail_if (is_empty tenant_id) (invalid_argument "tenant id is empty")
    call_broker internal (pubsub.add_subscription (topic_channel tenant_id topic) sub)

  unfoldable pub topic_unsubscribe : String → String → ℕ → Action (World S K) (Unit {0})
  topic_unsubscribe tenant_id topic sub = do
    bail_if (is_empty topic) (invalid_argument "topic is empty")
    bail_if (is_empty tenant_id) (invalid_argument "tenant id is empty")
    call_broker internal (pubsub.remove_subscription (topic_channel tenant_id topic) sub)

  abbrev pub device_of : String × String → Device
  device_of (device_id, attrs) = record {
    id = device_id;
    attributes = unwrap_or (json.from_str attrs) [];
  }

  unfoldable pub get_active_devices : GetActiveDevicesRequest → Action (World S K) (List Device)
  get_active_devices req = do
    bail_if (not config.enable_device_support) (failed_precondition "device support is disabled")
    bail_if (is_empty req.client_id) (invalid_argument "client id is empty")
    bail_if (is_empty req.tenant_id) (invalid_argument "tenant id is empty")
    entries ← call_store internal (kv.load (device_key req.tenant_id req.client_id))
    give (map device_of entries)
