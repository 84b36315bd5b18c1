-- ===== src/Propeller/Server/Messages.antt =====
-- The messages of approach-2/proto/push/v1/push.proto, and the helpers on them of
-- approach-2/src/server/grpc_handler.rs. An enumeration of the protocol is its number.
use payment_processing.Common.{ℕ, String, Bool, true, false, List, [], ◌∷◌, Option, none, some}
use payment_processing.Propeller.Auth.Signature.{Bytes}
use payment_processing.Propeller.Push.{Attributes, Device}

pub record Event : Type 0 where
  pub name : String
  pub format_type : ℕ
  pub payload : Bytes

pub record ResponseStatus : Type 0 where
  pub success : Bool
  pub error_code : String
  pub message : Attributes
  pub error_type : String

-- `ChannelRequest.request`
pub data Request : Type 0 where
  channel_event : Option Event → String → Request
  channel_event_ack : String → Request
  topic_subscription_request topic_unsubscription_request : String → Request

-- `ChannelResponse.response`, those that the service sends.
pub data Response : Type 0 where
  connect_ack : ResponseStatus → Response
  event_response : Event → String → Response
  topic_subscription_request_ack topic_unsubscription_request_ack :
      String → ResponseStatus → Response

pub record ClientChannelRequest : Type 0 where
  pub client_id : String
  pub event : Option Event

pub record ClientDeviceChannelRequest : Type 0 where
  pub client_id : String
  pub device_id : String
  pub event : Option Event

pub record TopicRequest : Type 0 where
  pub topic : String
  pub event : Option Event

pub record ActiveDevicesResponse : Type 0 where
  pub status : ResponseStatus
  pub is_client_online : Bool
  pub devices : List Device

abbrev pub ok_status : ResponseStatus
ok_status = record { success = true; error_code = ""; message = []; error_type = "" }

abbrev pub err_status : String → ResponseStatus
err_status e = record {
  success = false;
  error_code = "";
  message = ("message", e) ∷ [];
  error_type = "";
}

abbrev pub extract_event : Option Event → Bytes × String
extract_event none = ([], "")
extract_event (some e) = (e.payload, e.name)
