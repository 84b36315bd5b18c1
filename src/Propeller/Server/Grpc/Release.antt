-- ===== src/Propeller/Server/Grpc/Release.antt =====
-- The subscription of a channel, from the call to the end of its task: what the broker keeps for it.
use payment_processing.Common.{
  ℕ, ◌≡◌, inl, inr, refl, ap, Bool, true, false, List, Option, none, some, Result, ok, err, arith,
}
use payment_processing.Propeller.Error.{Status, PropellerError}
use payment_processing.Propeller.Channels.{topic_channel}
use payment_processing.Propeller.Auth.Jwt.{Platform, AuthContext}
use payment_processing.Propeller.Auth.Service.{Metadata}
use payment_processing.Propeller.Action.{after, ◌>>=◌}
use payment_processing.Propeller.Ports.{PubSub, KeyValue, IsReleasing}
use payment_processing.Propeller.Push.Subscriptions.{
  topic_subscribe-pubsub, topic_unsubscribe-pubsub, Held, Held-subst, AtMostOneMore, Opened,
  subscribe_client-Opened, unsubscribe_client-drops,
}
use payment_processing.Propeller.Push.{World, Json, Device, subscribe_client}
use payment_processing.Propeller.Server.Messages.{
  Request, Response, channel_event, channel_event_ack, topic_subscription_request,
  topic_unsubscription_request,
}
use payment_processing.Propeller.Server.Entry.{Settings, count_auth, auth_client, extract_device}
use payment_processing.Propeller.Server.Grpc.{lift}
use payment_processing.Propeller.Server.Loop.{loop_keeps, Either}
use payment_processing.Propeller.Server.Grpc.Channel.{
  Session, Channel, Wake, message, stream_closed, stream_error, topic_event, no_more_events,
  keepalive_tick, Happening, send, opened, handle_client_request, turn, leave, serve, subscribe_as,
  connect, spawned, channel,
}

module _ {S K : Type 0} where
  send-world :
      (is_read : Bool) (response : Result Status Response) (c : Channel S K)
      → (send is_read response c).world ≡ c.world
  send-world true response c = refl
  send-world false response c = refl

module _ {S K : Type 0} (pubsub : PubSub S) (kv : KeyValue K) (json : Json) (settings : Settings)
    (releasing : IsReleasing pubsub) where
  open releasing use {Entry, subscriptions}

  module _ (session : Session) (rest : List (ℕ × Entry)) where
    handle_client_request-Held :
        (is_read : Bool) (req : Option Request) (c : Channel S K)
        → Held pubsub releasing session.sub rest c.world.pubsub
        → Held pubsub releasing session.sub rest
            (handle_client_request pubsub kv json settings session is_read req c).world.pubsub
    unfolding handle_client_request
    handle_client_request-Held is_read none c h = h
    handle_client_request-Held is_read (some (topic_subscription_request topic)) c (e, h) =
        Held-subst pubsub releasing session.sub rest _ _
          (ap (λ w. w.pubsub) (send-world is_read _ _))
          (elim (topic_subscribe-pubsub pubsub kv json settings.client_config session.tenant_id
            topic session.sub c.world) [
              | inl same ↦ Held-subst pubsub releasing session.sub rest _ _ same (e, h)
              | inr added ↦ Held-subst pubsub releasing session.sub rest _ _ added (
                  releasing.add_subscription_keeps (topic_channel session.tenant_id topic)
                    session.sub c.world.pubsub e rest h)
            ])
    handle_client_request-Held is_read (some (topic_unsubscription_request topic)) c (e, h) =
        Held-subst pubsub releasing session.sub rest _ _
          (ap (λ w. w.pubsub) (send-world is_read _ _))
          (elim (topic_unsubscribe-pubsub pubsub kv json settings.client_config session.tenant_id
            topic session.sub c.world) [
              | inl same ↦ Held-subst pubsub releasing session.sub rest _ _ same (e, h)
              | inr removed ↦ Held-subst pubsub releasing session.sub rest _ _ removed (
                  releasing.remove_subscription_keeps (topic_channel session.tenant_id topic)
                    session.sub c.world.pubsub e rest h)
            ])
    handle_client_request-Held is_read (some (channel_event event topic)) c h = h
    handle_client_request-Held is_read (some (channel_event_ack event_id)) c h = h

    keepalive_tick-pubsub :
        (now : ℕ) (is_read : Bool) (c : Channel S K)
        → (turn pubsub kv json settings session keepalive_tick now is_read c).1.world.pubsub
          ≡ c.world.pubsub
    unfolding turn
    keepalive_tick-pubsub now is_read c = ground arith

    turn-Held :
        (wake : Wake) (now : ℕ) (is_read : Bool) (c : Channel S K)
        → Held pubsub releasing session.sub rest c.world.pubsub
        → Held pubsub releasing session.sub rest
            (turn pubsub kv json settings session wake now is_read c).1.world.pubsub
    unfolding turn
    turn-Held (message req) now is_read c h =
        handle_client_request-Held is_read req (record c { last_inbound_at = now }) h
    turn-Held stream_closed now is_read c h = h
    turn-Held stream_error now is_read c h = h
    turn-Held (topic_event topic payload) now is_read c h =
        Held-subst pubsub releasing session.sub rest _ _
          (ap (λ w. w.pubsub) (send-world is_read _ _)) h
    turn-Held no_more_events now is_read c h = h
    turn-Held keepalive_tick now is_read c h =
        Held-subst pubsub releasing session.sub rest _ _ (keepalive_tick-pubsub now is_read c) h

    leave-pubsub :
        (c : Channel S K)
        → Held pubsub releasing session.sub rest c.world.pubsub
        → subscriptions (leave pubsub kv json settings session c).world.pubsub ≡ rest
    unfolding leave
    leave-pubsub c h =
        unsubscribe_client-drops pubsub releasing kv json settings.client_config session.tenant_id
          session.client_id session.device session.sub rest c.world h

    serve-Held :
        (hs : List Happening) (c : Channel S K)
        → Held pubsub releasing session.sub rest c.world.pubsub
        → Either
            (λ d. Held pubsub releasing session.sub rest d.world.pubsub)
            (λ d. subscriptions d.world.pubsub ≡ rest)
            (serve pubsub kv json settings session hs c)
    unfolding serve
    serve-Held hs c h =
        loop_keeps (λ h. turn pubsub kv json settings session h.wake h.at h.is_read)
          (leave pubsub kv json settings session)
          (λ d. Held pubsub releasing session.sub rest d.world.pubsub)
          (λ d. subscriptions d.world.pubsub ≡ rest) (λ k. turn-Held k.wake k.at k.is_read)
          leave-pubsub hs c h

  module _ (platform : Platform) where
    abbrev Connected : World S K → Result Status Session × World S K → Type 0
    Connected w (ok session, end) =
        Held pubsub releasing session.sub (subscriptions w.pubsub) end.pubsub
    Connected w (err e, end) = AtMostOneMore pubsub releasing (subscriptions w.pubsub) end.pubsub

    answered-Connected :
        (auth : AuthContext) (device : Option Device) (w : World S K)
        (r : Result PropellerError ℕ × World S K)
        → subscribe_client pubsub kv json settings.client_config auth.tenant_id auth.client_id
            device w
          ≡ r
        → Opened pubsub releasing (subscriptions w.pubsub) r
        → Connected w (subscribe_as pubsub kv json platform settings auth device w)
    unfolding subscribe_as
    answered-Connected auth device w (ok sub, end) eq h = rw eq h
    answered-Connected auth device w (err e, end) eq h = rw eq h

    subscribe_as-Connected :
        (auth : AuthContext) (device : Option Device) (w : World S K)
        → Connected w (subscribe_as pubsub kv json platform settings auth device w)
    subscribe_as-Connected auth device w = answered-Connected auth device w _ refl (
        subscribe_client-Opened pubsub releasing kv json settings.client_config auth.tenant_id
          auth.client_id device w)

    connect-Connected :
        (metadata : Metadata) (w : World S K)
        → Connected w (connect pubsub kv json platform settings metadata w)
    unfolding connect
    connect-Connected metadata w =
        admitted (auth_client platform settings metadata)
          (extract_device settings.client_config metadata)
      where
        admitted :
            (caller : Result Status (AuthContext × Bool)) (device : Result Status (Option Device))
            → Connected w (
                after (count_auth caller w) (λ (auth, legacy).
                  lift device >>= λ d. subscribe_as pubsub kv json platform settings auth d))
        admitted (err e) device = inl refl
        admitted (ok (auth, true)) (ok d) = subscribe_as-Connected auth d _
        admitted (ok (auth, false)) (ok d) = subscribe_as-Connected auth d _
        admitted (ok (auth, true)) (err e) = inl refl
        admitted (ok (auth, false)) (err e) = inl refl

    -- What the broker keeps after a call of `channel`, against what it kept before.
    abbrev pub Released :
        List (ℕ × Entry) → Result Status (Bool × List (Result Status Response)) × World S K → Type 0
    Released before (err e, end) = AtMostOneMore pubsub releasing before end.pubsub
    Released before (ok (true, sent), end) = (sub : ℕ) × Held pubsub releasing sub before end.pubsub
    Released before (ok (false, sent), end) = subscriptions end.pubsub ≡ before

    spawned-Released :
        (now : ℕ) (hs : List Happening) (w : World S K) (r : Result Status Session × World S K)
        → Connected w r
        → Released (subscriptions w.pubsub) (spawned pubsub kv json platform settings now hs r)
    spawned-Released now hs w (err e, end) h = h
    spawned-Released now hs w (ok session, end) h =
        settled (serve pubsub kv json settings session hs (opened now end))
          (serve-Held session (subscriptions w.pubsub) hs (opened now end) h)
      where
        settled :
            (p : Bool × Channel S K)
            → Either
                (λ d. Held pubsub releasing session.sub (subscriptions w.pubsub) d.world.pubsub)
                (λ d. subscriptions d.world.pubsub ≡ subscriptions w.pubsub)
                p
            → Released (subscriptions w.pubsub) (ok (p.0, p.1.sent), p.1.world)
        settled (true, c) k = (session.sub, k)
        settled (false, c) k = k

    pub channel-Released :
        (metadata : Metadata) (now : ℕ) (hs : List Happening) (w : World S K)
        → Released
            (subscriptions w.pubsub)
            (channel pubsub kv json platform settings metadata now hs w)
    unfolding channel
    channel-Released metadata now hs w =
        spawned-Released now hs w (connect pubsub kv json platform settings metadata w)
          (connect-Connected metadata w)
