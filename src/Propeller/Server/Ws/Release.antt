-- ===== src/Propeller/Server/Ws/Release.antt =====
-- The subscription of a WebSocket connection, from the request to the end of its loop: what the broker
-- keeps for it.
use payment_processing.Common.{
  ℕ, String, ◌≡◌, ◌⊎◌, inl, inr, refl, Bool, true, false, List, [], ◌∷◌, Option, none, some, Result,
  ok, err, arith, Bool-cases,
}
use payment_processing.Common.Text.{is_empty}
use payment_processing.Propeller.Error.{PropellerError}
use payment_processing.Propeller.Auth.Signature.{Bytes}
use payment_processing.Propeller.Auth.Jwt.{Platform, AuthContext}
use payment_processing.Propeller.Auth.Service.{Headers, authenticate_http}
use payment_processing.Propeller.Ports.{PubSub, KeyValue, IsReleasing}
use payment_processing.Propeller.Broker.{Controls}
use payment_processing.Propeller.Broker.Redis.{Live, redis_pubsub, redis_releasing}
use payment_processing.Propeller.Push.{World, Json, Device, subscribe_client}
use payment_processing.Propeller.Push.Subscriptions.{
  Held, Held-subst, AtMostOneMore, Opened, subscribe_client-Opened, unsubscribe_client-drops,
}
use payment_processing.Propeller.Server.Loop.{loop_keeps, Either}
use payment_processing.Propeller.Server.Entry.{Settings, count_auth}
use payment_processing.Propeller.Server.Ws.{
  Message, connect_ack, Wake, text_frame, pong_frame, ping_frame, other_frame, close_frame,
  receive_error, stream_end, topic_event, no_more_events, ping_tick, Happening, Socket, turn, leave,
  serve, served, handle_ws, StatusCode, upgraded, ws_connect, device_of,
}

module _ {S K : Type 0} (pubsub : PubSub S) (kv : KeyValue K) (json : Json) (settings : Settings)
    (releasing : IsReleasing pubsub) where
  open releasing use {Entry, subscriptions}

  module _ (tenant_id client_id : String) (device : Option Device) where
    turn-pubsub :
        (wake : Wake) (now : ℕ) (is_writable : Bool) (c : Socket S K)
        → (turn pubsub kv json settings tenant_id client_id device wake now is_writable
            c).1.world.pubsub
          ≡ c.world.pubsub
    unfolding turn
    turn-pubsub (text_frame text) now is_writable c = refl
    turn-pubsub (pong_frame payload) now is_writable c = refl
    turn-pubsub (ping_frame payload) now is_writable c = ground arith
    turn-pubsub other_frame now is_writable c = refl
    turn-pubsub close_frame now is_writable c = refl
    turn-pubsub receive_error now is_writable c = refl
    turn-pubsub stream_end now is_writable c = refl
    turn-pubsub (topic_event topic payload) now is_writable c = ground arith
    turn-pubsub no_more_events now is_writable c = refl
    turn-pubsub ping_tick now is_writable c = ground arith

    leave-pubsub :
        (sub : ℕ) (rest : List (ℕ × Entry)) (c : Socket S K)
        → Held pubsub releasing sub rest c.world.pubsub
        → subscriptions
            (leave pubsub kv json settings tenant_id client_id device sub c).world.pubsub
          ≡ rest
    unfolding leave
    leave-pubsub sub rest c h =
        unsubscribe_client-drops pubsub releasing kv json settings.client_config tenant_id client_id
          device sub rest c.world h

    serve-Held :
        (sub : ℕ) (rest : List (ℕ × Entry)) (hs : List Happening) (c : Socket S K)
        → Held pubsub releasing sub rest c.world.pubsub
        → Either
            (λ d. Held pubsub releasing sub rest d.world.pubsub)
            (λ d. subscriptions d.world.pubsub ≡ rest)
            (serve pubsub kv json settings tenant_id client_id device sub hs c)
    unfolding serve
    serve-Held sub rest hs c h =
        loop_keeps
          (λ h. turn pubsub kv json settings tenant_id client_id device h.wake h.at h.is_writable)
          (leave pubsub kv json settings tenant_id client_id device sub)
          (λ d. Held pubsub releasing sub rest d.world.pubsub)
          (λ d. subscriptions d.world.pubsub ≡ rest)
          (λ k d.
            Held-subst pubsub releasing sub rest _ _ (turn-pubsub k.wake k.at k.is_writable d))
          (leave-pubsub sub rest) hs c h

  -- What the broker keeps after `handle_ws`, against what it kept before.
  abbrev pub Released : List (ℕ × Entry) → Option (Bool × List Message) × World S K → Type 0
  Released before (none, end) = AtMostOneMore pubsub releasing before end.pubsub
  Released before (some (true, sent), end) = (sub : ℕ) × Held pubsub releasing sub before end.pubsub
  Released before (some (false, sent), end) = subscriptions end.pubsub ≡ before

  module _ (tenant_id client_id : String) (device : Option Device) where
    served-Released :
        (now : ℕ) (is_writable : Bool) (hs : List Happening) (before : List (ℕ × Entry))
        (r : Result PropellerError ℕ × World S K)
        → Opened pubsub releasing before r
        → Released before
            (served pubsub kv json settings tenant_id client_id device now is_writable hs r)
    served-Released now is_writable hs before (err e, w) h = h
    served-Released now false hs before (ok sub, w) h = inr (sub, h)
    served-Released now true hs before (ok sub, w) h =
        settled (serve pubsub kv json settings tenant_id client_id device sub hs _) (
          serve-Held tenant_id client_id device sub before hs
            (record { world = w; sent = connect_ack ∷ []; last_pong_at = now }) h)
      where
        settled :
            (p : Bool × Socket S K)
            → Either
                (λ d. Held pubsub releasing sub before d.world.pubsub)
                (λ d. subscriptions d.world.pubsub ≡ before)
                p
            → Released before (some (p.0, p.1.sent), p.1.world)
        settled (true, c) k = (sub, k)
        settled (false, c) k = k

    pub handle_ws-Released :
        (now : ℕ) (is_writable : Bool) (hs : List Happening) (w : World S K)
        → Released
            (subscriptions w.pubsub)
            (handle_ws pubsub kv json settings tenant_id client_id device now is_writable hs w)
    unfolding handle_ws
    handle_ws-Released now is_writable hs w = elim (Bool-cases (is_empty client_id)) [
      | inl e ↦ rw e (inl refl)
      | inr e ↦ rw e (
          served-Released now is_writable hs (subscriptions w.pubsub)
            (subscribe_client pubsub kv json settings.client_config tenant_id client_id device w)
            (subscribe_client-Opened pubsub releasing kv json settings.client_config tenant_id
              client_id device w))
    ]

module _ {R K : Type 0} where
  -- The subscriptions after a request for a WebSocket, against those of before.
  abbrev pub KeepsSubscriptions :
      List (ℕ × Controls)
      → Result StatusCode (Option (Bool × List Message)) × World (Live R) K
      → Type 0
  KeepsSubscriptions before (err code, end) = end.pubsub.broker.subscriptions ≡ before
  KeepsSubscriptions before (ok none, end) =
      (end.pubsub.broker.subscriptions ≡ before)
      ⊎ ((sub : ℕ) × (cs : Controls) × (end.pubsub.broker.subscriptions ≡ (sub, cs) ∷ before))
  KeepsSubscriptions before (ok (some (true, sent)), end) =
      (sub : ℕ) × (cs : Controls) × (end.pubsub.broker.subscriptions ≡ (sub, cs) ∷ before)
  KeepsSubscriptions before (ok (some (false, sent)), end) =
      end.pubsub.broker.subscriptions ≡ before

module _ {R K : Type 0} (uuid_text : ℕ → String)
    (send : String → Bytes → R → Result String (Unit {0}) × R) (kv : KeyValue K) (json : Json)
    (settings : Settings) (platform : Platform) where
  plain :
      (before : List (ℕ × Controls)) (r : Option (Bool × List Message) × World (Live R) K)
      → Released
          (redis_pubsub uuid_text send)
          kv
          json
          settings
          (redis_releasing uuid_text send)
          before
          r
      → KeepsSubscriptions before (ok r.0, r.1)
  plain before (none, end) (inl same) = inl same
  plain before (none, end) (inr (sub, more)) = inr (sub, more.0, more.1)
  plain before (some (true, sent), end) (sub, more) = (sub, more.0, more.1)
  plain before (some (false, sent), end) h = h

  -- Over the Redis broker, a request for a WebSocket that is not authorized leaves the broker's
  -- subscriptions as they were; a connection that never comes to its loop leaves them so, or with one
  -- more in front of them; one whose loop runs has one more in front of them; and one whose loop has
  -- ended, whatever it followed and whatever ended it, leaves them exactly as they were.
  pub ws_connect-KeepsSubscriptions :
      (headers : Headers) (now : ℕ) (is_writable : Bool) (hs : List Happening)
      (w : World (Live R) K)
      → KeepsSubscriptions w.pubsub.broker.subscriptions (
          ws_connect
            (redis_pubsub uuid_text send)
            kv
            json
            platform
            settings
            headers
            now
            is_writable
            hs
            w)
  unfolding ws_connect
  ws_connect-KeepsSubscriptions headers now is_writable hs w =
      admitted (authenticate_http platform settings.auth headers settings.client_config)
    where
      admitted :
          (caller : Result PropellerError (AuthContext × Bool))
          → KeepsSubscriptions w.pubsub.broker.subscriptions (
              upgraded
                (redis_pubsub uuid_text send)
                kv
                json
                platform
                settings
                headers
                now
                is_writable
                hs
                (count_auth caller w))
      admitted (err e) = refl
      admitted (ok (auth, true)) = plain _ _ (
          handle_ws-Released (redis_pubsub uuid_text send) kv json settings
            (redis_releasing uuid_text send) auth.tenant_id auth.client_id
            (device_of settings.client_config headers) now is_writable hs _)
      admitted (ok (auth, false)) = plain _ _ (
          handle_ws-Released (redis_pubsub uuid_text send) kv json settings
            (redis_releasing uuid_text send) auth.tenant_id auth.client_id
            (device_of settings.client_config headers) now is_writable hs _)
