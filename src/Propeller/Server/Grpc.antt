-- ===== src/Propeller/Server/Grpc.antt =====
-- The calls of approach-2/src/server/grpc_handler.rs that answer at once. The channel is in Channel.
pub mod Channel
pub mod Sessions
pub mod Keepalive
pub mod Publishers
pub mod Publishing
pub mod Delivery
pub mod Release
pub mod Live
pub mod Devices
mod Tests
use payment_processing.Common.{
  ℕ, String, Bool, true, false, not, List, [], ◌∷◌, map, Option, none, some, Result, ok, err,
  map_err, if◌then◌else◌,
}
use payment_processing.Common.Text.{is_empty, ◌==◌ as same_text}
use payment_processing.Propeller.Error.{PropellerError, Status, permission_denied, to_status}
use payment_processing.Propeller.Auth.Jwt.{Platform, AuthContext}
use payment_processing.Propeller.Auth.Service.{Metadata}
use payment_processing.Propeller.Action.{Fallible, Action, ◌>>=◌, ◌>>◌, give}
use payment_processing.Propeller.Ports.{PubSub, KeyValue}
use payment_processing.Propeller.Push.{
  World, Json, Device, SendEventToTopicRequest, publish_to_client, publish_to_client_device,
  publish_to_topic, publish_to_topics, get_active_devices,
}
use payment_processing.Propeller.Server.Messages.{
  Event, ResponseStatus, ClientChannelRequest, ClientDeviceChannelRequest, TopicRequest,
  ActiveDevicesResponse, ok_status, extract_event,
}
use payment_processing.Propeller.Server.Entry.{Settings, auth_client, authorize_publisher}

module _ {W : Type 0} where
  -- A result that changes nothing.
  abbrev pub lift : {A : Type 0} → Result Status A → Fallible Status W A
  lift r w = (r, w)

  -- `.map_err(Status::from)?` on a call of the push service.
  abbrev pub push : {A : Type 0} → Action W A → Fallible Status W A
  push m w = let (r, w') = m w in (map_err to_status r, w')

-- The request to the push service that each request of `send_event_to_topics` becomes.
abbrev pub topic_request_for : String → TopicRequest → SendEventToTopicRequest
topic_request_for tenant_id r = record {
  tenant_id = tenant_id;
  topic = r.topic;
  event_name = (extract_event r.event).1;
  event = (extract_event r.event).0;
}

abbrev pub no_devices : List Device → Bool
no_devices [] = true
no_devices (d ∷ devices) = false

-- The client whose devices a caller asks for.
abbrev pub viewed_client : String → AuthContext → Result Status String
viewed_client client_id viewer =
    if is_empty client_id
    then ok viewer.client_id
    else if not (same_text client_id viewer.client_id)
    then err (to_status (permission_denied "client id mismatch"))
    else ok client_id

module _ {S K : Type 0} (pubsub : PubSub S) (kv : KeyValue K) (json : Json) (platform : Platform)
    (settings : Settings) where
  unfoldable pub send_event_to_client_channel :
      Metadata → ClientChannelRequest → Fallible Status (World S K) ResponseStatus
  send_event_to_client_channel metadata req = do
    publisher ← lift (authorize_publisher platform settings metadata)
    let (event_bytes, event_name) = extract_event req.event
    push (
        publish_to_client pubsub kv json settings.client_config (record {
          tenant_id = publisher.tenant_id;
          client_id = req.client_id;
          event_name = event_name;
          event = event_bytes;
        }))
    give ok_status

  unfoldable pub send_event_to_client_device_channel :
      Metadata → ClientDeviceChannelRequest → Fallible Status (World S K) ResponseStatus
  send_event_to_client_device_channel metadata req = do
    publisher ← lift (authorize_publisher platform settings metadata)
    let (event_bytes, event_name) = extract_event req.event
    push (
        publish_to_client_device pubsub kv json settings.client_config (record {
          tenant_id = publisher.tenant_id;
          client_id = req.client_id;
          device_id = req.device_id;
          event_name = event_name;
          event = event_bytes;
        }))
    give ok_status

  unfoldable pub send_event_to_topic :
      Metadata → TopicRequest → Fallible Status (World S K) ResponseStatus
  send_event_to_topic metadata req = do
    publisher ← lift (authorize_publisher platform settings metadata)
    push (
        publish_to_topic pubsub kv json settings.client_config
          (topic_request_for publisher.tenant_id req))
    give ok_status

  unfoldable pub send_event_to_topics :
      Metadata → List TopicRequest → Fallible Status (World S K) ResponseStatus
  send_event_to_topics metadata requests = do
    publisher ← lift (authorize_publisher platform settings metadata)
    push (
        publish_to_topics pubsub kv json settings.client_config
          (map (topic_request_for publisher.tenant_id) requests))
    give ok_status

  unfoldable pub get_client_active_devices :
      Metadata → String → Fallible Status (World S K) ActiveDevicesResponse
  get_client_active_devices metadata requested = do
    (viewer, _) ← lift (auth_client platform settings metadata)
    client_id ← lift (viewed_client requested viewer)
    devices ← push (
        get_active_devices pubsub kv json settings.client_config
          (record { tenant_id = viewer.tenant_id; client_id = client_id }))
    give (record {
      status = ok_status;
      is_client_online = not (no_devices devices);
      devices = devices;
    })
