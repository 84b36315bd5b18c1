-- ===== src/Propeller/Server/Ws/Sessions.antt =====
-- The connections that WebSocket requests open and close.
use payment_processing.Common.{
  ℕ, ◌+◌, ◌%◌, ◌^◌, String, ◌≡◌, refl, ap, ◌∙◌, Bool, true, false, List, [], ◌∷◌, Option, none,
  some, arith, inl, inr, Bool-cases,
}
use payment_processing.Common.Text.{is_empty}
use payment_processing.Propeller.Metrics.{increment, decrement}
use payment_processing.Propeller.Action.{outcome}
use payment_processing.Propeller.Ports.{PubSub, KeyValue}
use payment_processing.Propeller.Push.{World, Json, Device, subscribe_client}
use payment_processing.Propeller.Push.Counting.{
  subscribe_client-err, subscribe_client-counts, unsubscribe_client-counts,
}
use payment_processing.Propeller.Server.Loop.{settled, loop_settles}
use payment_processing.Propeller.Server.Entry.{Settings}
use payment_processing.Propeller.Server.Ws.{
  Message, connect_ack, Wake, text_frame, pong_frame, ping_frame, other_frame, close_frame,
  receive_error, stream_end, topic_event, no_more_events, ping_tick, Happening, Socket, turn, leave,
  serve, served, handle_ws,
}

module _ {S K : Type 0} (pubsub : PubSub S) (kv : KeyValue K) (json : Json) (settings : Settings)
    (tenant_id client_id : String) (device : Option Device) where
  turn-connections :
      (wake : Wake) (now : ℕ) (is_writable : Bool) (c : Socket S K)
      → (turn pubsub kv json settings tenant_id client_id device wake now is_writable
          c).1.world.metrics.connections
        ≡ c.world.metrics.connections
  unfolding turn
  turn-connections (text_frame text) now is_writable c = refl
  turn-connections (pong_frame payload) now is_writable c = refl
  turn-connections (ping_frame payload) now is_writable c = ground arith
  turn-connections other_frame now is_writable c = refl
  turn-connections close_frame now is_writable c = refl
  turn-connections receive_error now is_writable c = refl
  turn-connections stream_end now is_writable c = refl
  turn-connections (topic_event topic payload) now is_writable c = ground arith
  turn-connections no_more_events now is_writable c = refl
  turn-connections ping_tick now is_writable c = ground arith

  leave-connections :
      (sub : ℕ) (c : Socket S K)
      → (leave pubsub kv json settings tenant_id client_id device sub c).world.metrics.connections
        ≡ decrement c.world.metrics.connections
  unfolding leave
  leave-connections sub c =
      ap (λ m. m.connections)
        (unsubscribe_client-counts pubsub kv json settings.client_config tenant_id client_id sub
          device c.world)

  serve-connections :
      (sub : ℕ) (hs : List Happening) (c : Socket S K)
      → (serve pubsub kv json settings tenant_id client_id device sub hs
          c).1.world.metrics.connections
        ≡ settled decrement
            (serve pubsub kv json settings tenant_id client_id device sub hs c).0
            c.world.metrics.connections
  unfolding serve
  serve-connections sub hs c =
      loop_settles
        (λ h. turn pubsub kv json settings tenant_id client_id device h.wake h.at h.is_writable)
        (leave pubsub kv json settings tenant_id client_id device sub)
        (λ c. c.world.metrics.connections) decrement
        (λ h. turn-connections h.wake h.at h.is_writable) (leave-connections sub) hs c

  -- How the count of connections stands after `handle_ws`.
  abbrev pub Accounted : ℕ → Option (Bool × List Message) × World S K → Type 0
  Accounted before (none, end) = end.metrics.connections ≡ before
  Accounted before (some (true, sent), end) = end.metrics.connections ≡ (before + 1) % 2 ^ 64
  Accounted before (some (false, sent), end) = end.metrics.connections ≡ before % 2 ^ 64

  socket-Accounted :
      (before : ℕ) (w : World S K) (p : Bool × Socket S K)
      → w.metrics.connections ≡ increment before
      → p.1.world.metrics.connections ≡ settled decrement p.0 w.metrics.connections
      → Accounted before (some (p.0, p.1.sent), p.1.world)
  socket-Accounted before w (true, c) e h = h ∙ e
  socket-Accounted before w (false, c) e h = omega arith

  served-Accounted :
      (now : ℕ) (hs : List Happening) (w : World S K)
      → Accounted w.metrics.connections (
          served pubsub kv json settings tenant_id client_id device now true hs
            (subscribe_client pubsub kv json settings.client_config tenant_id client_id device w))
  served-Accounted now hs w =
      elim (outcome
        (subscribe_client pubsub kv json settings.client_config tenant_id client_id device w)) [
          | inl (sub, end, eq) ↦ rw eq (
              socket-Accounted w.metrics.connections end
                (serve pubsub kv json settings tenant_id client_id device sub hs
                  (record { world = end; sent = connect_ack ∷ []; last_pong_at = now }))
                (ap (λ m. m.connections)
                  (subscribe_client-counts pubsub kv json settings.client_config tenant_id client_id
                    device w end sub eq))
                (serve-connections sub hs
                  (record { world = end; sent = connect_ack ∷ []; last_pong_at = now })))
          | inr (e, end, eq) ↦ rw eq (
              ap (λ m. m.connections)
                (subscribe_client-err pubsub kv json settings.client_config tenant_id client_id
                  device w end e eq).1)
        ]

  -- A WebSocket connection whose acknowledgement is written leaves the count of connections as it
  -- was if it is refused, one higher while its loop runs, and as it was, modulo 2 ^ 64, when the
  -- loop has ended, whatever ended it.
  pub handle_ws-Accounted :
      (now : ℕ) (hs : List Happening) (w : World S K)
      → Accounted w.metrics.connections
          (handle_ws pubsub kv json settings tenant_id client_id device now true hs w)
  unfolding handle_ws
  handle_ws-Accounted now hs w = elim (Bool-cases (is_empty client_id)) [
    | inl e ↦ rw e refl
    | inr e ↦ rw e (served-Accounted now hs w)
  ]
