-- ===== src/Propeller/Server/Grpc/Channel.antt =====
-- `channel` and `handle_client_request` of approach-2/src/server/grpc_handler.rs: a connection, and
-- the task that serves it. A time is a count of nanoseconds.
use payment_processing.Common.{
  ℕ, ◌-◌, ltb, String, Bool, true, false, List, [], ◌∷◌, ◌++◌, Option, none, some, Result, ok, err,
  if◌then◌else◌,
}
use payment_processing.Propeller.Error.{PropellerError, Status, Code, to_string}
use payment_processing.Propeller.Auth.Signature.{Bytes}
use payment_processing.Propeller.Auth.Jwt.{Platform, AuthContext}
use payment_processing.Propeller.Auth.Service.{Metadata}
use payment_processing.Propeller.Metrics.{Metrics, increment}
use payment_processing.Propeller.Action.{Fallible, ◌>>=◌, give}
use payment_processing.Propeller.Ports.{PubSub, KeyValue}
use payment_processing.Propeller.Push.{
  World, Json, Device, subscribe_client, unsubscribe_client, topic_subscribe, topic_unsubscribe,
}
use payment_processing.Propeller.Server.Messages.{
  ResponseStatus, Request, channel_event, channel_event_ack, topic_subscription_request,
  topic_unsubscription_request, Response, connect_ack, event_response,
  topic_subscription_request_ack, topic_unsubscription_request_ack, ok_status, err_status,
}
use payment_processing.Propeller.Server.Loop.{loop}
use payment_processing.Propeller.Server.Grpc.{lift, push}
use payment_processing.Propeller.Server.Entry.{
  Settings, from_secs, extract_device, auth_client, with_metrics, count_auth,
}

-- What the connection's task owns.
pub record Session : Type 0 where
  pub tenant_id : String
  pub client_id : String
  pub device : Option Device
  pub sub : ℕ

-- The state of the task: the service's, what it has put on the response stream, the first of it
-- first, and when it last heard from the client.
pub record Channel (S K : Type 0) : Type 0 where
  pub world : World S K
  pub sent : List (Result Status Response)
  pub last_inbound_at : ℕ

-- What `select!` wakes up for.
pub data Wake : Type 0 where
  message : Option Request → Wake
  stream_closed stream_error : Wake
  topic_event : String → Bytes → Wake
  no_more_events : Wake
  keepalive_tick : Wake

-- When that is, and whether the response stream is still read: if not, a `send` on it fails.
pub record Happening : Type 0 where
  pub at : ℕ
  pub is_read : Bool
  pub wake : Wake

abbrev pub status_of : Result PropellerError (Unit {0}) → ResponseStatus
status_of (ok _) = ok_status
status_of (err e) = err_status (to_string e)

abbrev pub count_subscribe : Result PropellerError (Unit {0}) → Metrics → Metrics
count_subscribe (ok _) m = record m { topic_subscribe_total = increment m.topic_subscribe_total }
count_subscribe (err e) m = m

abbrev pub count_unsubscribe : Result PropellerError (Unit {0}) → Metrics → Metrics
count_unsubscribe (ok _) m = record m {
  topic_unsubscribe_total = increment m.topic_unsubscribe_total;
}
count_unsubscribe (err e) m = record m {
  topic_unsubscribe_error_total = increment m.topic_unsubscribe_error_total;
}

abbrev pub count_delivered : Metrics → Metrics
count_delivered m = record m { messages_delivered = increment m.messages_delivered }

abbrev pub count_timeout : Metrics → Metrics
count_timeout m = record m {
  grpc_keepalive_timeout_total = increment m.grpc_keepalive_timeout_total;
}

module _ {S K : Type 0} where
  abbrev pub send : Bool → Result Status Response → Channel S K → Channel S K
  send true response c = record c { sent = c.sent ++ response ∷ [] }
  send false response c = c

module _ {S K : Type 0} (pubsub : PubSub S) (kv : KeyValue K) (json : Json) (settings : Settings)
    (session : Session) where
  unfoldable pub handle_client_request : Bool → Option Request → Channel S K → Channel S K
  handle_client_request is_read none c = c
  handle_client_request is_read (some (topic_subscription_request topic)) c =
      let (r, w) =
        topic_subscribe pubsub kv json settings.client_config session.tenant_id topic session.sub
          c.world in
      send is_read (ok (topic_subscription_request_ack topic (status_of r)))
        (record c { world = with_metrics (count_subscribe r) w })
  handle_client_request is_read (some (topic_unsubscription_request topic)) c =
      let (r, w) =
        topic_unsubscribe pubsub kv json settings.client_config session.tenant_id topic session.sub
          c.world in
      send is_read (ok (topic_unsubscription_request_ack topic (status_of r)))
        (record c { world = with_metrics (count_unsubscribe r) w })
  handle_client_request is_read (some (channel_event event topic)) c = c
  handle_client_request is_read (some (channel_event_ack event_id)) c = c

  -- One turn of the loop: whether it goes on, and the state.
  unfoldable pub turn : Wake → ℕ → Bool → Channel S K → Bool × Channel S K
  unfolding handle_client_request
  turn (message req) now is_read c =
      (true, handle_client_request is_read req (record c { last_inbound_at = now }))
  turn stream_closed now is_read c = (false, c)
  turn stream_error now is_read c = (false, c)
  turn (topic_event topic payload) now is_read c = (
    is_read,
    send is_read
        (ok (event_response (record { name = ""; format_type = 0; payload = payload }) topic))
        (record c { world = with_metrics count_delivered c.world }),
  )
  turn no_more_events now is_read c = (false, c)
  turn keepalive_tick now is_read c =
      if ltb (from_secs settings.keepalive.grpc_stream_idle_timeout_secs) (now - c.last_inbound_at)
      then (
        false,
        send is_read
            (err (record { code = Code.deadline_exceeded; message = "channel keepalive timeout" }))
            (record c { world = with_metrics count_timeout c.world }),
      )
      else (true, c)

  -- What stands behind the loop.
  unfoldable pub leave : Channel S K → Channel S K
  leave c = record c {
    world =
        (unsubscribe_client pubsub kv json settings.client_config session.tenant_id
          session.client_id session.sub session.device c.world).1;
  }

  -- The task over what happens: whether it still runs, and the state.
  unfoldable pub serve : List Happening → Channel S K → Bool × Channel S K
  unfolding turn leave loop
  serve = loop (λ h. turn h.wake h.at h.is_read) leave

-- The task at its start: the acknowledgement is sent.
abbrev pub opened : {S K : Type 0} → ℕ → World S K → Channel S K
opened now w = record { world = w; sent = ok (connect_ack ok_status) ∷ []; last_inbound_at = now }

module _ {S K : Type 0} (pubsub : PubSub S) (kv : KeyValue K) (json : Json) (platform : Platform)
    (settings : Settings) where
  -- The subscription, for a caller. The first message is then put into the response stream, which is
  -- new and whose receiver the call itself still holds, so that it is taken: `opened` has it.
  unfoldable pub subscribe_as : AuthContext → Option Device → Fallible Status (World S K) Session
  subscribe_as auth device = do
    sub ← push (
        subscribe_client pubsub kv json settings.client_config auth.tenant_id auth.client_id device)
    give (record {
      tenant_id = auth.tenant_id;
      client_id = auth.client_id;
      device = device;
      sub = sub;
    })

  -- `channel` up to the start of the task.
  unfoldable pub connect : Metadata → Fallible Status (World S K) Session
  unfolding subscribe_as
  connect metadata = do
    (auth, legacy_mode) ← count_auth (auth_client platform settings metadata)
    device ← lift (extract_device settings.client_config metadata)
    subscribe_as auth device

  -- A call of `channel` with all that happens to it: an error, or whether it still runs and what
  -- was sent; and the state that the service is left in.
  abbrev pub spawned :
      ℕ
      → List Happening
      → Result Status Session × World S K
      → Result Status (Bool × List (Result Status Response)) × World S K
  spawned now happenings (err status, w) = (err status, w)
  spawned now happenings (ok session, w) =
      let (runs, c) = serve pubsub kv json settings session happenings (opened now w) in
      (ok (runs, c.sent), c.world)

  unfoldable pub channel :
      Metadata
      → ℕ
      → List Happening
      → World S K
      → Result Status (Bool × List (Result Status Response)) × World S K
  unfolding connect
  channel metadata now happenings w = spawned now happenings (connect metadata w)
