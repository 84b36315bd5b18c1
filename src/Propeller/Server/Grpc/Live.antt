-- ===== src/Propeller/Server/Grpc/Live.antt =====
-- The channel over the broker of approach-2/src/broker/redis_pubsub.rs.
use payment_processing.Common.{
  ℕ, String, ◌≡◌, ◌⊎◌, inl, inr, Bool, true, false, List, ◌∷◌, Result, ok, err,
}
use payment_processing.Propeller.Error.{Status}
use payment_processing.Propeller.Auth.Signature.{Bytes}
use payment_processing.Propeller.Auth.Jwt.{Platform}
use payment_processing.Propeller.Auth.Service.{Metadata}
use payment_processing.Propeller.Ports.{KeyValue}
use payment_processing.Propeller.Push.{World, Json}
use payment_processing.Propeller.Broker.{Controls}
use payment_processing.Propeller.Broker.Redis.{Live, redis_pubsub, redis_releasing}
use payment_processing.Propeller.Server.Messages.{Response}
use payment_processing.Propeller.Server.Entry.{Settings}
use payment_processing.Propeller.Server.Grpc.Channel.{Happening, channel}
use payment_processing.Propeller.Server.Grpc.Release.{Released, channel-Released}

module _ {R K : Type 0} where
  -- The subscriptions after a call of `channel`, against those of before.
  abbrev pub KeepsSubscriptions :
      List (ℕ × Controls)
      → Result Status (Bool × List (Result Status Response)) × World (Live R) K
      → Type 0
  KeepsSubscriptions before (err e, end) =
      (end.pubsub.broker.subscriptions ≡ before)
      ⊎ ((sub : ℕ) × (cs : Controls) × (end.pubsub.broker.subscriptions ≡ (sub, cs) ∷ before))
  KeepsSubscriptions before (ok (true, sent), end) =
      (sub : ℕ) × (cs : Controls) × (end.pubsub.broker.subscriptions ≡ (sub, cs) ∷ before)
  KeepsSubscriptions before (ok (false, sent), end) = end.pubsub.broker.subscriptions ≡ before

module _ {R K : Type 0} (uuid_text : ℕ → String)
    (send : String → Bytes → R → Result String (Unit {0}) × R) (kv : KeyValue K) (json : Json)
    (settings : Settings) (platform : Platform) where
  -- Over the Redis broker, a call of `channel` leaves the broker's subscriptions as they were, or with
  -- one more in front of them, if it fails; with one more in front of them while its task runs; and
  -- exactly as they were when the task has ended, whatever it followed and whatever ended it.
  pub channel-KeepsSubscriptions :
      (metadata : Metadata) (now : ℕ) (hs : List Happening) (w : World (Live R) K)
      → KeepsSubscriptions w.pubsub.broker.subscriptions
          (channel (redis_pubsub uuid_text send) kv json platform settings metadata now hs w)
  channel-KeepsSubscriptions metadata now hs w =
      plain (channel (redis_pubsub uuid_text send) kv json platform settings metadata now hs w) (
        channel-Released (redis_pubsub uuid_text send) kv json settings
          (redis_releasing uuid_text send) platform metadata now hs w)
    where
      plain :
          (r : Result Status (Bool × List (Result Status Response)) × World (Live R) K)
          → Released
              (redis_pubsub uuid_text send)
              kv
              json
              settings
              (redis_releasing uuid_text send)
              platform
              w.pubsub.broker.subscriptions
              r
          → KeepsSubscriptions w.pubsub.broker.subscriptions r
      plain (err e, end) (inl same) = inl same
      plain (err e, end) (inr (sub, more)) = inr (sub, more.0, more.1)
      plain (ok (true, sent), end) (sub, more) = (sub, more.0, more.1)
      plain (ok (false, sent), end) h = h
