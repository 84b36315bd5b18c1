-- ===== src/Propeller/Broker/Delivery.antt =====
-- The messages of approach-2/src/broker/redis_pubsub.rs: publishing, and the tasks that hand what
-- Redis sends to a subscription. Redis is a parameter; what wakes a task is a list.
use payment_processing.Common.{
  ℕ, String, ◌≡◌, refl, Bool, true, false, List, [], ◌∷◌, Option, none, some, Result, ok, err, ap,
}
use payment_processing.Propeller.Auth.Signature.{Bytes}
use payment_processing.Propeller.Broker.{Broker, ends_loop, listener_ends}

module _ {R : Type 0} (send : String → Bytes → R → Result String (Unit {0}) × R) where
  -- What follows one message of a bulk.
  abbrev pub sent :
      Result String (Unit {0}) × R
      → (R → Result String (Unit {0}) × R)
      → Result String (Unit {0}) × R
  sent (ok _, r) rest = rest r
  sent (err e, r) rest = (err e, r)

  -- The loop over the requests, which the first failure ends.
  unfoldable pub publish_bulk : List (String × Bytes) → R → Result String (Unit {0}) × R
  publish_bulk [] r = (ok tt, r)
  publish_bulk ((channel, bytes) ∷ requests) r = sent (send channel bytes r) (publish_bulk requests)

  unfoldable pub publish : String → Bytes → R → Result String (Unit {0}) × R
  publish channel bytes r = send channel bytes r

pub record TopicEvent : Type 0 where
  pub topic : String
  pub event : Bytes

-- What wakes a task: a message, whose payload may not be readable as bytes, with whether the
-- subscription still takes events; the end of the messages; or the control channel.
pub data Wake : Type 0 where
  arrives : String → Option Bytes → Bool → Wake
  no_more_messages shutdown control_gone : Wake

-- `unwrap_or_default()`
abbrev pub payload_of : Option Bytes → Bytes
payload_of none = []
payload_of (some bytes) = bytes

-- Whether a task still runs, and the events that it has handed on.
unfoldable pub forward : List Wake → Bool × List TopicEvent
forward [] = (true, [])
forward (arrives channel payload true ∷ wakes) =
    let (runs, events) = forward wakes in
    (runs, record { topic = channel; event = payload_of payload } ∷ events)
forward (arrives channel payload false ∷ wakes) = (false, [])
forward (no_more_messages ∷ wakes) = (false, [])
forward (shutdown ∷ wakes) = (false, [])
forward (control_gone ∷ wakes) = (false, [])

-- The task of a subscription, and of a topic: a task that ends leaves the broker.
abbrev pub ended : (Broker → Broker) → Bool → Broker → Broker
ended leave true b = b
ended leave false b = leave b

unfoldable pub run_loop : ℕ → List Wake → Broker → List TopicEvent × Broker
unfolding forward
run_loop sub wakes b = let (runs, events) = forward wakes in (events, ended (ends_loop sub) runs b)

unfoldable pub run_listener : ℕ → List Wake → Broker → List TopicEvent × Broker
unfolding forward
run_listener task wakes b =
    let (runs, events) = forward wakes in (events, ended (listener_ends task) runs b)

-- Messages that the subscription takes, and their events.
abbrev pub arrivals : List (String × Bytes) → List Wake
arrivals [] = []
arrivals ((channel, bytes) ∷ messages) = arrives channel (some bytes) true ∷ arrivals messages

abbrev pub events_of : List (String × Bytes) → List TopicEvent
events_of [] = []
events_of ((channel, bytes) ∷ messages) =
    record { topic = channel; event = bytes } ∷ events_of messages

pub forward-arrivals :
    (messages : List (String × Bytes)) → forward (arrivals messages) ≡ (true, events_of messages)
unfolding forward
forward-arrivals [] = refl
forward-arrivals ((channel, bytes) ∷ messages) =
    ap (λ r. (r.0, record { topic = channel; event = bytes } ∷ r.1)) (forward-arrivals messages)

pub run_listener-arrivals :
    (task : ℕ) (messages : List (String × Bytes)) (b : Broker)
    → run_listener task (arrivals messages) b ≡ (events_of messages, b)
unfolding run_listener
run_listener-arrivals task messages b = rw (forward-arrivals messages) refl
