-- ===== src/Propeller/Server/Ws.antt =====
-- approach-2/src/server/ws_handler.rs: a WebSocket connection, and the loop that serves it. A time
-- is a count of nanoseconds. A message to the client stands for its JSON text.
pub mod Pings
pub mod Sessions
pub mod Release
mod Tests
use payment_processing.Common.{
  ℕ, ◌-◌, ltb, String, Bool, true, false, not, List, [], ◌∷◌, ◌++◌, Option, none, some, Result, ok,
  err, unwrap_or, if◌then◌else◌,
}
use payment_processing.Common.Text.{is_empty}
use payment_processing.Propeller.Config.{ClientConfig}
use payment_processing.Propeller.Error.{PropellerError}
use payment_processing.Propeller.Auth.Signature.{Bytes}
use payment_processing.Propeller.Auth.Jwt.{Platform, AuthContext}
use payment_processing.Propeller.Auth.Service.{Headers, authenticate_http}
use payment_processing.Propeller.Metrics.{Metrics, increment}
use payment_processing.Propeller.Ports.{PubSub, KeyValue}
use payment_processing.Propeller.Push.{World, Json, Device, subscribe_client, unsubscribe_client}
use payment_processing.Propeller.Server.Loop.{loop}
use payment_processing.Propeller.Server.Entry.{
  Settings, from_secs, collect_attrs, with_metrics, count_auth,
}

-- `axum::extract::ws::Message`, those that the handler sends.
pub data Message : Type 0 where
  connect_ack : Message
  event_text : String → Bytes → Message
  pong : Bytes → Message
  ping : Message
  close : String → Message

-- What `select!` wakes up for. `other_frame` is a binary message.
pub data Wake : Type 0 where
  text_frame : String → Wake
  pong_frame ping_frame : Bytes → Wake
  other_frame close_frame receive_error stream_end : Wake
  topic_event : String → Bytes → Wake
  no_more_events : Wake
  ping_tick : Wake

-- When that is, and whether the socket is still writable: if not, a `send` on it fails.
pub record Happening : Type 0 where
  pub at : ℕ
  pub is_writable : Bool
  pub wake : Wake

pub record Socket (S K : Type 0) : Type 0 where
  pub world : World S K
  pub sent : List Message
  pub last_pong_at : ℕ

abbrev pub count_pong : Metrics → Metrics
count_pong m = record m { ws_pong_received_total = increment m.ws_pong_received_total }

abbrev pub count_delivered : Metrics → Metrics
count_delivered m = record m { messages_delivered = increment m.messages_delivered }

abbrev pub count_timeout : Metrics → Metrics
count_timeout m = record m { ws_keepalive_timeout_total = increment m.ws_keepalive_timeout_total }

abbrev pub count_ping : Metrics → Metrics
count_ping m = record m { ws_ping_sent_total = increment m.ws_ping_sent_total }

-- The device of a request, by its headers.
unfoldable pub device_of : ClientConfig → Headers → Option Device
device_of client headers =
    let device_id = unwrap_or (headers client.device_header) "" in
    let attrs = collect_attrs headers client.device_attribute_headers [] in
    if client.enable_device_support
    then if not (is_empty device_id)
      then some (record { id = device_id; attributes = attrs })
      else none
    else none

module _ {S K : Type 0} where
  abbrev pub counted : (Metrics → Metrics) → Socket S K → Socket S K
  counted change c = record c { world = with_metrics change c.world }

  abbrev pub send : Message → Socket S K → Socket S K
  send m c = record c { sent = c.sent ++ m ∷ [] }

  abbrev pub heard : ℕ → Socket S K → Socket S K
  heard now c = counted count_pong (record c { last_pong_at = now })

module _ {S K : Type 0} (pubsub : PubSub S) (kv : KeyValue K) (json : Json) (settings : Settings)
    (tenant_id client_id : String) (device : Option Device) where
  -- One turn of the loop: whether it goes on, and the state.
  unfoldable pub turn : Wake → ℕ → Bool → Socket S K → Bool × Socket S K
  turn (text_frame text) now is_writable c = (true, c)
  turn (pong_frame payload) now is_writable c = (true, heard now c)
  turn (ping_frame payload) now is_writable c =
      if is_writable then (true, heard now (send (pong payload) c)) else (false, c)
  turn other_frame now is_writable c = (true, c)
  turn close_frame now is_writable c = (false, c)
  turn receive_error now is_writable c = (false, c)
  turn stream_end now is_writable c = (false, c)
  turn (topic_event topic payload) now is_writable c =
      let c' = counted count_delivered c in
      if is_writable then (true, send (event_text topic payload) c') else (false, c')
  turn no_more_events now is_writable c = (false, c)
  turn ping_tick now is_writable c =
      if ltb (from_secs settings.keepalive.ws_pong_timeout_secs) (now - c.last_pong_at)
      then (
        false,
        if is_writable
            then send (close "keepalive timeout") (counted count_timeout c)
            else counted count_timeout c,
      )
      else if is_writable
      then (true, counted count_ping (send ping c))
      else (false, c)

  -- What stands behind the loop.
  unfoldable pub leave : ℕ → Socket S K → Socket S K
  leave sub c = record c {
    world =
        (unsubscribe_client pubsub kv json settings.client_config tenant_id client_id sub device
          c.world).1;
  }

  unfoldable pub serve : ℕ → List Happening → Socket S K → Bool × Socket S K
  unfolding turn leave loop
  serve sub = loop (λ h. turn h.wake h.at h.is_writable) (leave sub)

  -- How a connection stands: `handle_ws` returned before its loop, or the loop runs, or it has ended.
  -- What was sent is with it.
  abbrev pub served :
      ℕ
      → Bool
      → List Happening
      → Result PropellerError ℕ × World S K
      → Option (Bool × List Message) × World S K
  served now is_writable happenings (err e, w) = (none, w)
  served now false happenings (ok sub, w) = (none, w)
  served now true happenings (ok sub, w) =
      let (runs, c) =
        serve sub happenings (record { world = w; sent = connect_ack ∷ []; last_pong_at = now }) in
      (some (runs, c.sent), c.world)

  -- `is_writable` is of the acknowledgement.
  unfoldable pub handle_ws :
      ℕ → Bool → List Happening → World S K → Option (Bool × List Message) × World S K
  unfolding serve
  handle_ws now is_writable happenings w =
      if is_empty client_id
      then (none, w)
      else served now is_writable happenings
          (subscribe_client pubsub kv json settings.client_config tenant_id client_id device w)

pub data StatusCode : Type 0 where
  unauthorized : StatusCode

module _ {S K : Type 0} (pubsub : PubSub S) (kv : KeyValue K) (json : Json) (platform : Platform)
    (settings : Settings) where
  -- The upgrade of the connection, and then `handle_ws`, for a caller.
  abbrev pub upgraded :
      Headers
      → ℕ
      → Bool
      → List Happening
      → Result PropellerError (AuthContext × Bool) × World S K
      → Result StatusCode (Option (Bool × List Message)) × World S K
  upgraded headers now is_writable happenings (err e, w) = (err unauthorized, w)
  upgraded headers now is_writable happenings (ok (auth, legacy_mode), w) =
      let (r, w') =
        handle_ws pubsub kv json settings auth.tenant_id auth.client_id
          (device_of settings.client_config headers) now is_writable happenings w in
      (ok r, w')

  unfoldable pub ws_connect :
      Headers
      → ℕ
      → Bool
      → List Happening
      → World S K
      → Result StatusCode (Option (Bool × List Message)) × World S K
  unfolding handle_ws device_of
  ws_connect headers now is_writable happenings w =
      upgraded headers now is_writable happenings
        (count_auth (authenticate_http platform settings.auth headers settings.client_config) w)
