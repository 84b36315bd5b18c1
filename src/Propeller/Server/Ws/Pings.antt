-- ===== src/Propeller/Server/Ws/Pings.antt =====
-- When the loop of a WebSocket connection runs on, and what that means for a client that answers
-- every ping.
use payment_processing.Common.{
  ℕ, zero, suc, ◌+◌, ◌-◌, ◌≤◌, ◌<◌, String, ◌≡◌, ◌↔◌, refl, Bool, true, List, [], ◌∷◌, Option,
  arith, if◌then◌else◌,
}
use payment_processing.Propeller.Ports.{PubSub, KeyValue}
use payment_processing.Propeller.Push.{Json, Device}
use payment_processing.Propeller.Server.Loop.{AllLet, loop_runs_iff}
use payment_processing.Propeller.Server.Entry.{Settings, from_secs}
use payment_processing.Propeller.Server.Ws.{
  Wake, text_frame, pong_frame, ping_frame, other_frame, close_frame, receive_error, stream_end,
  topic_event, no_more_events, ping_tick, Happening, Socket, turn, leave, serve,
}

-- One happening lets the connection go on.
abbrev pub LetsRun : ℕ → ℕ → Wake → ℕ → Bool → Type 0
LetsRun limit last (text_frame text) now is_writable = Unit
LetsRun limit last (pong_frame payload) now is_writable = Unit
LetsRun limit last (ping_frame payload) now is_writable = is_writable ≡ true
LetsRun limit last other_frame now is_writable = Unit
LetsRun limit last close_frame now is_writable = ⊥
LetsRun limit last receive_error now is_writable = ⊥
LetsRun limit last stream_end now is_writable = ⊥
LetsRun limit last (topic_event topic payload) now is_writable = is_writable ≡ true
LetsRun limit last no_more_events now is_writable = ⊥
LetsRun limit last ping_tick now is_writable = (now - last ≤ limit) × (is_writable ≡ true)

-- When the client's latest pong, or ping, came.
abbrev pub heard_at : ℕ → Wake → ℕ → Bool → ℕ
heard_at last (text_frame text) now is_writable = last
heard_at last (pong_frame payload) now is_writable = now
heard_at last (ping_frame payload) now is_writable = if is_writable then now else last
heard_at last other_frame now is_writable = last
heard_at last close_frame now is_writable = last
heard_at last receive_error now is_writable = last
heard_at last stream_end now is_writable = last
heard_at last (topic_event topic payload) now is_writable = last
heard_at last no_more_events now is_writable = last
heard_at last ping_tick now is_writable = last

abbrev pub AllLetRun : ℕ → ℕ → List Happening → Type 0
AllLetRun limit =
    AllLet (λ last h. LetsRun limit last h.wake h.at h.is_writable)
      (λ last h. heard_at last h.wake h.at h.is_writable)

-- A tick of the ping interval, and the client's pong some time behind it, a number of times.
abbrev pub rounds : ℕ → ℕ → ℕ → ℕ → List Happening
rounds interval delay zero start = []
rounds interval delay (suc n) start =
    record { at = start; is_writable = true; wake = ping_tick }
    ∷ record { at = start + delay; is_writable = true; wake = pong_frame [] }
    ∷ rounds interval delay n (start + interval)

rounds-AllLetRun :
    (limit interval delay n start last : ℕ)
    → interval ≤ limit + delay
    → start ≤ last + limit
    → AllLetRun limit last (rounds interval delay n start)
rounds-AllLetRun limit interval delay zero start last h k = tt
rounds-AllLetRun limit interval delay (suc n) start last h k = (
  (omega arith, refl),
  (tt, rounds-AllLetRun limit interval delay n (start + interval) (start + delay) h (omega arith)),
)

second_tick :
    (limit interval delay n start : ℕ)
    → delay < interval
    → AllLetRun limit start (rounds interval delay (suc (suc n)) start)
    → interval ≤ limit + delay
second_tick limit interval delay n start short (first, (answer, (second, rest))) =
    let within : (start + interval) - (start + delay) ≤ limit = second.0 in omega arith

module _ {S K : Type 0} (pubsub : PubSub S) (kv : KeyValue K) (json : Json) (settings : Settings)
    (tenant_id client_id : String) (device : Option Device) where
  abbrev pub pong_limit : ℕ
  pong_limit = from_secs settings.keepalive.ws_pong_timeout_secs

  turn_iff :
      (wake : Wake) (now : ℕ) (is_writable : Bool) (c : Socket S K)
      → ((turn pubsub kv json settings tenant_id client_id device wake now is_writable c).0 ≡ true)
        ↔ LetsRun pong_limit c.last_pong_at wake now is_writable
  unfolding turn
  turn_iff (text_frame text) now is_writable c = (λ _. tt, λ _. refl)
  turn_iff (pong_frame payload) now is_writable c = (λ _. tt, λ _. refl)
  turn_iff (ping_frame payload) now is_writable c = (λ h. ground arith, λ h. ground arith)
  turn_iff other_frame now is_writable c = (λ _. tt, λ _. refl)
  turn_iff close_frame now is_writable c = (λ h. cc, λ h. absurd h)
  turn_iff receive_error now is_writable c = (λ h. cc, λ h. absurd h)
  turn_iff stream_end now is_writable c = (λ h. cc, λ h. absurd h)
  turn_iff (topic_event topic payload) now is_writable c = (λ h. ground arith, λ h. ground arith)
  turn_iff no_more_events now is_writable c = (λ h. cc, λ h. absurd h)
  turn_iff ping_tick now is_writable c = (λ h. ground arith, λ h. ground arith)

  turn-heard_at :
      (wake : Wake) (now : ℕ) (is_writable : Bool) (c : Socket S K)
      → (turn pubsub kv json settings tenant_id client_id device wake now is_writable
          c).1.last_pong_at
        ≡ heard_at c.last_pong_at wake now is_writable
  unfolding turn
  turn-heard_at (text_frame text) now is_writable c = refl
  turn-heard_at (pong_frame payload) now is_writable c = refl
  turn-heard_at (ping_frame payload) now is_writable c = ground arith
  turn-heard_at other_frame now is_writable c = refl
  turn-heard_at close_frame now is_writable c = refl
  turn-heard_at receive_error now is_writable c = refl
  turn-heard_at stream_end now is_writable c = refl
  turn-heard_at (topic_event topic payload) now is_writable c = ground arith
  turn-heard_at no_more_events now is_writable c = refl
  turn-heard_at ping_tick now is_writable c = ground arith

  serve_runs_iff :
      (sub : ℕ) (hs : List Happening) (c : Socket S K)
      → ((serve pubsub kv json settings tenant_id client_id device sub hs c).0 ≡ true)
        ↔ AllLetRun pong_limit c.last_pong_at hs
  unfolding serve
  serve_runs_iff sub hs c =
      loop_runs_iff
        (λ h. turn pubsub kv json settings tenant_id client_id device h.wake h.at h.is_writable)
        (leave pubsub kv json settings tenant_id client_id device sub) (λ c. c.last_pong_at)
        (λ last h. LetsRun pong_limit last h.wake h.at h.is_writable)
        (λ last h. heard_at last h.wake h.at h.is_writable)
        (λ h. turn_iff h.wake h.at h.is_writable) (λ h. turn-heard_at h.wake h.at h.is_writable) hs
        c

  -- A client that answers each ping after a delay of less than the interval keeps its connection
  -- over two pings or more exactly if the ping interval is at most the pong timeout and the delay
  -- together. The first ping comes at once, the others at the configured interval.
  pub answering_socket_iff :
      (sub delay n : ℕ) (c : Socket S K)
      → delay < from_secs settings.keepalive.ws_ping_interval_secs
      → ((serve pubsub kv json settings tenant_id client_id device sub
            (rounds
              (from_secs settings.keepalive.ws_ping_interval_secs)
              delay
              (suc (suc n))
              c.last_pong_at)
            c).0
          ≡ true)
        ↔ (from_secs settings.keepalive.ws_ping_interval_secs
            ≤ from_secs settings.keepalive.ws_pong_timeout_secs + delay)
  answering_socket_iff sub delay n c short =
      let interval = from_secs settings.keepalive.ws_ping_interval_secs in
      let (run, run_back) =
        serve_runs_iff sub (rounds interval delay (suc (suc n)) c.last_pong_at) c in
      (
        (λ r. second_tick pong_limit interval delay n c.last_pong_at short (run r)),
        (λ h. run_back (
            rounds-AllLetRun pong_limit interval delay (suc (suc n)) c.last_pong_at c.last_pong_at h
              (omega arith))),
      )
