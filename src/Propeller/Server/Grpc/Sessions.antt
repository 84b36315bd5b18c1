-- ===== src/Propeller/Server/Grpc/Sessions.antt =====
-- The connections that the calls of `channel` open and close.
use payment_processing.Common.{
  ℕ, ◌+◌, ◌%◌, ◌^◌, ◌≡◌, inl, inr, refl, ap, ◌∙◌, Bool, true, false, List, Option, none, some,
  Result, ok, err, arith,
}
use payment_processing.Propeller.Error.{Status}
use payment_processing.Propeller.Auth.Jwt.{Platform, AuthContext}
use payment_processing.Propeller.Auth.Service.{Metadata}
use payment_processing.Propeller.Metrics.{increment, decrement}
use payment_processing.Propeller.Action.{outcome, after, ◌>>=◌}
use payment_processing.Propeller.Ports.{PubSub, KeyValue}
use payment_processing.Propeller.Push.{
  World, Json, Device, subscribe_client, topic_subscribe, topic_unsubscribe,
}
use payment_processing.Propeller.Push.Counting.{
  subscribe_client-err, subscribe_client-counts, unsubscribe_client-counts,
}
use payment_processing.Propeller.Server.Messages.{
  Request, channel_event, channel_event_ack, topic_subscription_request,
  topic_unsubscription_request, Response,
}
use payment_processing.Propeller.Server.Entry.{Settings, count_auth, auth_client, extract_device}
use payment_processing.Propeller.Server.Grpc.{lift}
use payment_processing.Propeller.Server.Loop.{settled, loop_settles}
use payment_processing.Propeller.Server.Grpc.Channel.{
  Session, Channel, Wake, message, stream_closed, stream_error, topic_event, no_more_events,
  keepalive_tick, Happening, opened, handle_client_request, turn, leave, serve, subscribe_as,
  connect, spawned, channel,
}

module _ {S K : Type 0} (pubsub : PubSub S) (kv : KeyValue K) (json : Json) (settings : Settings)
    (session : Session) where
  handle_client_request-connections :
      (is_read : Bool) (req : Option Request) (c : Channel S K)
      → (handle_client_request pubsub kv json settings session is_read req
          c).world.metrics.connections
        ≡ c.world.metrics.connections
  unfolding handle_client_request topic_subscribe topic_unsubscribe
  handle_client_request-connections is_read none c = refl
  handle_client_request-connections is_read (some (topic_subscription_request topic)) c =
      ground arith
  handle_client_request-connections is_read (some (topic_unsubscription_request topic)) c =
      ground arith
  handle_client_request-connections is_read (some (channel_event event topic)) c = refl
  handle_client_request-connections is_read (some (channel_event_ack event_id)) c = refl

  turn-connections :
      (wake : Wake) (now : ℕ) (is_read : Bool) (c : Channel S K)
      → (turn pubsub kv json settings session wake now is_read c).1.world.metrics.connections
        ≡ c.world.metrics.connections
  unfolding turn
  turn-connections (message req) now is_read c =
      handle_client_request-connections is_read req (record c { last_inbound_at = now })
  turn-connections stream_closed now is_read c = refl
  turn-connections stream_error now is_read c = refl
  turn-connections (topic_event topic payload) now is_read c = ground arith
  turn-connections no_more_events now is_read c = refl
  turn-connections keepalive_tick now is_read c = ground arith

  leave-connections :
      (c : Channel S K)
      → (leave pubsub kv json settings session c).world.metrics.connections
        ≡ decrement c.world.metrics.connections
  unfolding leave
  leave-connections c =
      ap (λ m. m.connections)
        (unsubscribe_client-counts pubsub kv json settings.client_config session.tenant_id
          session.client_id session.sub session.device c.world)

  serve-connections :
      (hs : List Happening) (c : Channel S K)
      → (serve pubsub kv json settings session hs c).1.world.metrics.connections
        ≡ settled decrement
            (serve pubsub kv json settings session hs c).0
            c.world.metrics.connections
  unfolding serve
  serve-connections hs c =
      loop_settles (λ h. turn pubsub kv json settings session h.wake h.at h.is_read)
        (leave pubsub kv json settings session) (λ c. c.world.metrics.connections) decrement
        (λ h. turn-connections h.wake h.at h.is_read) leave-connections hs c

module _ {S K : Type 0} (pubsub : PubSub S) (kv : KeyValue K) (json : Json) (platform : Platform)
    (settings : Settings) where
  -- What a connection counts: one if it is accepted, none if it is refused.
  abbrev pub Counts : {A : Type 0} → World S K → Result Status A × World S K → Type 0
  Counts w (ok a, end) = end.metrics.connections ≡ increment w.metrics.connections
  Counts w (err e, end) = end.metrics.connections ≡ w.metrics.connections

  subscribe_as-Counts :
      (auth : AuthContext) (device : Option Device) (w : World S K)
      → Counts w (subscribe_as pubsub kv json platform settings auth device w)
  unfolding subscribe_as
  subscribe_as-Counts auth device w =
      elim (outcome (
        subscribe_client pubsub kv json settings.client_config auth.tenant_id auth.client_id device
          w)) [
            | inl (sub, end, eq) ↦ rw eq (
                ap (λ m. m.connections)
                  (subscribe_client-counts pubsub kv json settings.client_config auth.tenant_id
                    auth.client_id device w end sub eq))
            | inr (e, end, eq) ↦ rw eq (
                ap (λ m. m.connections)
                  (subscribe_client-err pubsub kv json settings.client_config auth.tenant_id
                    auth.client_id device w end e eq).1)
          ]

  connect-Counts :
      (metadata : Metadata) (w : World S K)
      → Counts w (connect pubsub kv json platform settings metadata w)
  unfolding connect
  connect-Counts metadata w =
      admitted (auth_client platform settings metadata)
        (extract_device settings.client_config metadata)
    where
      admitted :
          (caller : Result Status (AuthContext × Bool)) (device : Result Status (Option Device))
          → Counts w (
              after (count_auth caller w) (λ (auth, legacy).
                lift device >>= λ d. subscribe_as pubsub kv json platform settings auth d))
      admitted (err e) device = refl
      admitted (ok (auth, true)) (ok d) = subscribe_as-Counts auth d _
      admitted (ok (auth, false)) (ok d) = subscribe_as-Counts auth d _
      admitted (ok (auth, true)) (err e) = refl
      admitted (ok (auth, false)) (err e) = refl

  -- How the count of connections stands after a call of `channel`.
  abbrev pub Accounted :
      ℕ → Result Status (Bool × List (Result Status Response)) × World S K → Type 0
  Accounted before (err e, end) = end.metrics.connections ≡ before
  Accounted before (ok (true, sent), end) = end.metrics.connections ≡ (before + 1) % 2 ^ 64
  Accounted before (ok (false, sent), end) = end.metrics.connections ≡ before % 2 ^ 64

  served-Accounted :
      (before : ℕ) (w : World S K) (p : Bool × Channel S K)
      → w.metrics.connections ≡ increment before
      → p.1.world.metrics.connections ≡ settled decrement p.0 w.metrics.connections
      → Accounted before (ok (p.0, p.1.sent), p.1.world)
  served-Accounted before w (true, c) e h = h ∙ e
  served-Accounted before w (false, c) e h = omega arith

  spawned-Accounted :
      (w : World S K) (now : ℕ) (hs : List Happening) (r : Result Status Session × World S K)
      → Counts w r
      → Accounted w.metrics.connections (spawned pubsub kv json platform settings now hs r)
  spawned-Accounted w now hs (err e, end) h = h
  spawned-Accounted w now hs (ok session, end) h =
      served-Accounted w.metrics.connections end
        (serve pubsub kv json settings session hs (opened now end)) h
        (serve-connections pubsub kv json settings session hs (opened now end))

  -- A call of `channel` leaves the count of connections as it was if it is refused, one higher while its task runs, and as it was, modulo 2 ^ 64, when the task has
  -- ended, whatever ended it.
  pub channel-Accounted :
      (metadata : Metadata) (now : ℕ) (hs : List Happening) (w : World S K)
      → Accounted w.metrics.connections (channel pubsub kv json platform settings metadata now hs w)
  unfolding channel
  channel-Accounted metadata now hs w =
      spawned-Accounted w now hs (connect pubsub kv json platform settings metadata w)
        (connect-Counts metadata w)
