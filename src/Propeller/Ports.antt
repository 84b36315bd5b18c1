-- ===== src/Propeller/Ports.antt =====
-- The traits `PubSub` of approach-2/src/broker/mod.rs and `KeyValue` of approach-2/src/kv/mod.rs.
-- An `anyhow` error is its text, and a subscription its id.
use payment_processing.Common.{ℕ, String, ◌≡◌, List, ◌∷◌, Result, ok}
use payment_processing.Propeller.Auth.Signature.{Bytes}

pub record PubSub (S : Type 0) : Type 0 where
  pub publish : String → Bytes → S → Result String (Unit {0}) × S
  pub publish_bulk : List (String × Bytes) → S → Result String (Unit {0}) × S
  pub subscribe : List String → S → Result String ℕ × S
  pub add_subscription : String → ℕ → S → Result String (Unit {0}) × S
  pub remove_subscription : String → ℕ → S → Result String (Unit {0}) × S
  pub unsubscribe : ℕ → S → Result String (Unit {0}) × S
  pub active_topic_listeners : S → ℕ

pub record KeyValue (K : Type 0) : Type 0 where
  pub store : String → String → String → K → Result String (Unit {0}) × K
  pub load : String → K → Result String (List (String × String)) × K
  pub delete : String → List String → K → Result String (Unit {0}) × K

-- A broker that keeps an entry for each subscription, the latest first: a new one stands in front,
-- also where `subscribe` fails, and the operations on it change its entry alone, or take it out.
pub record IsReleasing {S : Type 0} (pubsub : PubSub S) : Type 1 where
  pub Entry : Type 0
  pub subscriptions : S → List (ℕ × Entry)
  pub subscribe_adds :
      (channels : List String) (s t : S) (sub : ℕ)
      → pubsub.subscribe channels s ≡ (ok sub, t)
      → (e : Entry) × (subscriptions t ≡ (sub, e) ∷ subscriptions s)
  pub subscribe_inserts :
      (channels : List String) (s : S)
      → (sub : ℕ) × (e : Entry) × (subscriptions (pubsub.subscribe channels s).1
          ≡ (sub, e) ∷ subscriptions s)
  pub add_subscription_keeps :
      (channel : String) (sub : ℕ) (s : S) (e : Entry) (rest : List (ℕ × Entry))
      → subscriptions s ≡ (sub, e) ∷ rest
      → (e' : Entry) × (subscriptions (pubsub.add_subscription channel sub s).1 ≡ (sub, e') ∷ rest)
  pub remove_subscription_keeps :
      (channel : String) (sub : ℕ) (s : S) (e : Entry) (rest : List (ℕ × Entry))
      → subscriptions s ≡ (sub, e) ∷ rest
      → (e' : Entry) × (subscriptions (pubsub.remove_subscription channel sub s).1
          ≡ (sub, e') ∷ rest)
  pub unsubscribe_drops :
      (sub : ℕ) (s : S) (e : Entry) (rest : List (ℕ × Entry))
      → subscriptions s ≡ (sub, e) ∷ rest
      → subscriptions (pubsub.unsubscribe sub s).1 ≡ rest
