-- ===== src/Propeller/Server/Grpc/Keepalive.antt =====
-- When the task of a channel runs on, and when it ends.
use payment_processing.Common.{
  ℕ, ◌-◌, ◌≤◌, ◌<◌, ◌≡◌, ◌↔◌, ◌⊎◌, inl, inr, refl, subst, Bool, true, false, List, [], ◌∷◌, none,
  some, arith, Bool-cases,
}
use payment_processing.Propeller.Ports.{PubSub, KeyValue}
use payment_processing.Propeller.Push.{Json}
use payment_processing.Propeller.Server.Messages.{
  channel_event, channel_event_ack, topic_subscription_request, topic_unsubscription_request,
}
use payment_processing.Propeller.Server.Entry.{Settings, from_secs}
use payment_processing.Propeller.Server.Loop.{AllLet, loop_runs_iff}
use payment_processing.Propeller.Server.Grpc.Channel.{
  Session, Channel, Wake, message, stream_closed, stream_error, topic_event, no_more_events,
  keepalive_tick, Happening, handle_client_request, turn, leave, serve,
}

-- One happening lets the channel run on: a message, an event that is read, or a tick within the
-- limit behind the latest message.
abbrev pub LetsRun : ℕ → ℕ → Wake → ℕ → Bool → Type 0
LetsRun limit last (message req) now is_read = Unit
LetsRun limit last stream_closed now is_read = ⊥
LetsRun limit last stream_error now is_read = ⊥
LetsRun limit last (topic_event topic payload) now is_read = is_read ≡ true
LetsRun limit last no_more_events now is_read = ⊥
LetsRun limit last keepalive_tick now is_read = now - last ≤ limit

-- When the client was last heard from.
abbrev pub heard : ℕ → Wake → ℕ → ℕ
heard last (message req) now = now
heard last stream_closed now = last
heard last stream_error now = last
heard last (topic_event topic payload) now = last
heard last no_more_events now = last
heard last keepalive_tick now = last

-- Each happening lets the channel run on.
abbrev pub AllLetRun : ℕ → ℕ → List Happening → Type 0
AllLetRun limit =
    AllLet (λ last h. LetsRun limit last h.wake h.at h.is_read) (λ last h. heard last h.wake h.at)

-- No happening is a message of the client.
abbrev pub IsQuiet : Wake → Type 0
IsQuiet (message req) = ⊥
IsQuiet stream_closed = Unit
IsQuiet stream_error = Unit
IsQuiet (topic_event topic payload) = Unit
IsQuiet no_more_events = Unit
IsQuiet keepalive_tick = Unit

abbrev pub AllQuiet : List Happening → Type 0
AllQuiet [] = Unit
AllQuiet (h ∷ hs) = IsQuiet h.wake × AllQuiet hs

-- One of the happenings is a tick more than the limit behind that time.
abbrev pub HasLateTick : ℕ → ℕ → List Happening → Type 0
HasLateTick limit last [] = ⊥
HasLateTick limit last (h ∷ hs) =
    ((h.wake ≡ keepalive_tick) × (limit < h.at - last)) ⊎ HasLateTick limit last hs

heard_quiet : (last : ℕ) (wake : Wake) (now : ℕ) → IsQuiet wake → heard last wake now ≡ last
heard_quiet last (message req) now q = absurd q
heard_quiet last stream_closed now q = refl
heard_quiet last stream_error now q = refl
heard_quiet last (topic_event topic payload) now q = refl
heard_quiet last no_more_events now q = refl
heard_quiet last keepalive_tick now q = refl

late_stops :
    (limit last : ℕ) (hs : List Happening)
    → AllQuiet hs
    → HasLateTick limit last hs
    → AllLetRun limit last hs
    → ⊥
late_stops limit last [] quiet late run = late
late_stops limit last (h ∷ hs) quiet (inl (tick, past)) run =
    let within : h.at - last ≤ limit =
      subst (λ w. LetsRun limit last w h.at h.is_read) tick run.0 in
    absurd (omega arith)
late_stops limit last (h ∷ hs) quiet (inr late) run =
    late_stops limit last hs quiet.1 late
      (subst (λ t. AllLetRun limit t hs) (heard_quiet last h.wake h.at quiet.0) run.1)

module _ {S K : Type 0} (pubsub : PubSub S) (kv : KeyValue K) (json : Json) (settings : Settings)
    (session : Session) where
  abbrev pub idle_limit : ℕ
  idle_limit = from_secs settings.keepalive.grpc_stream_idle_timeout_secs

  turn_iff :
      (wake : Wake) (now : ℕ) (is_read : Bool) (c : Channel S K)
      → ((turn pubsub kv json settings session wake now is_read c).0 ≡ true)
        ↔ LetsRun idle_limit c.last_inbound_at wake now is_read
  unfolding turn
  turn_iff (message req) now is_read c = (λ _. tt, λ _. refl)
  turn_iff stream_closed now is_read c = (λ h. cc, λ h. absurd h)
  turn_iff stream_error now is_read c = (λ h. cc, λ h. absurd h)
  turn_iff (topic_event topic payload) now is_read c = (λ h. h, λ h. h)
  turn_iff no_more_events now is_read c = (λ h. cc, λ h. absurd h)
  turn_iff keepalive_tick now is_read c = (λ h. ground arith, λ h. ground arith)

  turn-heard :
      (wake : Wake) (now : ℕ) (is_read : Bool) (c : Channel S K)
      → (turn pubsub kv json settings session wake now is_read c).1.last_inbound_at
        ≡ heard c.last_inbound_at wake now
  unfolding turn handle_client_request
  turn-heard (message none) now is_read c = refl
  turn-heard (message (some (topic_subscription_request topic))) now is_read c = ground arith
  turn-heard (message (some (topic_unsubscription_request topic))) now is_read c = ground arith
  turn-heard (message (some (channel_event event topic))) now is_read c = refl
  turn-heard (message (some (channel_event_ack event_id))) now is_read c = refl
  turn-heard stream_closed now is_read c = refl
  turn-heard stream_error now is_read c = refl
  turn-heard (topic_event topic payload) now is_read c = ground arith
  turn-heard no_more_events now is_read c = refl
  turn-heard keepalive_tick now is_read c = ground arith

  -- The task runs on exactly if each happening is a message, an event that the client reads, or a
  -- tick within the configured idle time behind the latest message: all else ends it.
  pub serve_runs_iff :
      (hs : List Happening) (c : Channel S K)
      → ((serve pubsub kv json settings session hs c).0 ≡ true)
        ↔ AllLetRun idle_limit c.last_inbound_at hs
  unfolding serve
  serve_runs_iff hs c =
      loop_runs_iff (λ h. turn pubsub kv json settings session h.wake h.at h.is_read)
        (leave pubsub kv json settings session) (λ c. c.last_inbound_at)
        (λ last h. LetsRun idle_limit last h.wake h.at h.is_read) (λ last h. heard last h.wake h.at)
        (λ h. turn_iff h.wake h.at h.is_read) (λ h. turn-heard h.wake h.at h.is_read) hs c

  -- A client that sends nothing is let go: if some tick comes more than the configured idle time
  -- after the client was last heard from, the task has ended, whatever else happens in between.
  pub silent_channel_ends :
      (hs : List Happening) (c : Channel S K)
      → AllQuiet hs
      → HasLateTick idle_limit c.last_inbound_at hs
      → (serve pubsub kv json settings session hs c).0 ≡ false
  silent_channel_ends hs c quiet late =
      elim (Bool-cases (serve pubsub kv json settings session hs c).0) [
        | inl e ↦
            absurd
              (late_stops idle_limit c.last_inbound_at hs quiet late ((serve_runs_iff hs c).0 e))
        | inr e ↦ e
      ]
