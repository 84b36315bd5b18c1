-- ===== src/Propeller/Broker/Redis.antt =====
-- `RedisPubSub` of approach-2/src/broker/redis_pubsub.rs as the broker that the push service uses. Redis
-- takes the messages, and answers the connections by a list of replies, `connected` when it has run
-- out.
use payment_processing.Common.{
  ℕ, String, ◌≡◌, refl, ap, true, List, [], ◌∷◌, Option, none, some, Result, ok, arith, ◌==◌,
  Bool-cases, inl, inr,
}
use payment_processing.Propeller.Auth.Signature.{Bytes}
use payment_processing.Propeller.Ports.{PubSub, IsReleasing}
use payment_processing.Propeller.Broker
use payment_processing.Propeller.Broker.{
  Broker, Controls, Reply, connected, no_connection, refused, put, without, find, take_out,
  contains_key, listen, add_to, shut, remove_from, drop_entry,
}
use payment_processing.Propeller.Broker.Delivery

pub record Live (R : Type 0) : Type 0 where
  pub broker : Broker
  pub replies : List Reply
  pub redis : R

abbrev pub next_reply : List Reply → Reply
next_reply [] = connected
next_reply (reply ∷ replies) = reply

abbrev pub later_replies : List Reply → List Reply
later_replies [] = []
later_replies (reply ∷ replies) = replies

same_number : (n : ℕ) → (n == n) ≡ true
same_number n = ground arith

module _ {R : Type 0} (uuid_text : ℕ → String)
    (send : String → Bytes → R → Result String (Unit {0}) × R) where
  -- An operation of the broker, which takes a reply whether it opens a connection or not, and one of
  -- Redis.
  abbrev pub on_broker : {A : Type 0} → (Reply → Broker → A × Broker) → Live R → A × Live R
  on_broker op s =
      let (a, b) = op (next_reply s.replies) s.broker in
      (a, record s { broker = b; replies = later_replies s.replies })

  abbrev pub on_redis : {A : Type 0} → (R → A × R) → Live R → A × Live R
  on_redis op s = let (a, r) = op s.redis in (a, record s { redis = r })

  abbrev pub redis_pubsub : PubSub (Live R)
  redis_pubsub = record {
    publish = λ channel bytes. on_redis (Delivery.publish send channel bytes);
    publish_bulk = λ requests. on_redis (Delivery.publish_bulk send requests);
    subscribe = λ channels. on_broker Broker.subscribe;
    add_subscription =
        λ channel sub. on_broker (λ reply. Broker.add_subscription uuid_text reply channel sub);
    remove_subscription = λ channel sub s.
        let (r, b) = Broker.remove_subscription uuid_text channel sub s.broker in
        (r, record s { broker = b });
    unsubscribe = λ sub s. (ok tt, record s { broker = Broker.unsubscribe sub s.broker });
    active_topic_listeners = λ s. s.broker.active_topic_listeners;
  }

  find-front :
      (sub : ℕ) (subs : List (ℕ × Controls)) (cs : Controls) (rest : List (ℕ × Controls))
      → subs ≡ (sub, cs) ∷ rest
      → find sub subs ≡ some cs
  find-front sub subs cs rest h = rw (h, same_number sub) refl

  put-front :
      (sub : ℕ) (subs : List (ℕ × Controls)) (new cs : Controls) (rest : List (ℕ × Controls))
      → subs ≡ (sub, cs) ∷ rest
      → put sub new subs ≡ (sub, new) ∷ rest
  put-front sub subs new cs rest h = rw (h, same_number sub) refl

  without-front :
      (sub : ℕ) (subs : List (ℕ × Controls)) (cs : Controls) (rest : List (ℕ × Controls))
      → subs ≡ (sub, cs) ∷ rest
      → without sub subs ≡ rest
  without-front sub subs cs rest h = rw (h, same_number sub) refl

  listen-front :
      (reply : Reply) (channel : String) (sub : ℕ) (b : Broker) (cs : Controls)
      (rest : List (ℕ × Controls))
      → b.subscriptions ≡ (sub, cs) ∷ rest
      → (cs' : Controls) × ((listen reply channel sub cs b).1.subscriptions ≡ (sub, cs') ∷ rest)
  listen-front no_connection channel sub b cs rest h = (cs, h)
  listen-front (refused e) channel sub b cs rest h = (cs, h)
  listen-front connected channel sub b cs rest h =
      let new = (channel, b.next_task) ∷ cs in (new, put-front sub b.subscriptions new cs rest h)

  shut-front :
      (channel : String) (sub : ℕ) (taken : Option (ℕ × Controls)) (b : Broker) (cs : Controls)
      (rest : List (ℕ × Controls))
      → b.subscriptions ≡ (sub, cs) ∷ rest
      → (cs' : Controls) × ((shut uuid_text channel sub taken b).1.subscriptions
          ≡ (sub, cs') ∷ rest)
  shut-front channel sub none b cs rest h = (cs, h)
  shut-front channel sub (some (task, left)) b cs rest h =
      (left, put-front sub b.subscriptions left cs rest h)

  pub add_subscription-front :
      (reply : Reply) (channel : String) (sub : ℕ) (b : Broker) (cs : Controls)
      (rest : List (ℕ × Controls))
      → b.subscriptions ≡ (sub, cs) ∷ rest
      → (cs' : Controls) × ((Broker.add_subscription uuid_text reply channel sub b).1.subscriptions
          ≡ (sub, cs') ∷ rest)
  unfolding Broker.add_subscription
  add_subscription-front reply channel sub b cs rest h =
      rw (find-front sub b.subscriptions cs rest h) (elim (Bool-cases (contains_key channel cs)) [
        | inl e ↦ rw e (cs, h)
        | inr e ↦ rw e (listen-front reply channel sub b cs rest h)
      ])

  pub remove_subscription-front :
      (channel : String) (sub : ℕ) (b : Broker) (cs : Controls) (rest : List (ℕ × Controls))
      → b.subscriptions ≡ (sub, cs) ∷ rest
      → (cs' : Controls) × ((Broker.remove_subscription uuid_text channel sub b).1.subscriptions
          ≡ (sub, cs') ∷ rest)
  unfolding Broker.remove_subscription
  remove_subscription-front channel sub b cs rest h =
      rw (find-front sub b.subscriptions cs rest h)
        (shut-front channel sub (take_out channel cs) b cs rest h)

  pub unsubscribe-front :
      (sub : ℕ) (b : Broker) (cs : Controls) (rest : List (ℕ × Controls))
      → b.subscriptions ≡ (sub, cs) ∷ rest
      → (Broker.unsubscribe sub b).subscriptions ≡ rest
  unfolding Broker.unsubscribe
  unsubscribe-front sub b cs rest h =
      rw (find-front sub b.subscriptions cs rest h) (without-front sub b.subscriptions cs rest h)

  pub subscribe-front :
      (reply : Reply) (b c : Broker) (sub : ℕ)
      → Broker.subscribe reply b ≡ (ok sub, c)
      → c.subscriptions ≡ (sub, []) ∷ b.subscriptions
  unfolding Broker.subscribe
  subscribe-front connected b c sub h = ground arith
  subscribe-front no_connection b c sub h = ground arith
  subscribe-front (refused e) b c sub h = ground arith

  pub subscribe-inserted :
      (reply : Reply) (b : Broker)
      → (Broker.subscribe reply b).1.subscriptions ≡ (b.next_id, []) ∷ b.subscriptions
  unfolding Broker.subscribe
  subscribe-inserted connected b = refl
  subscribe-inserted no_connection b = refl
  subscribe-inserted (refused e) b = refl

  abbrev pub redis_releasing : IsReleasing redis_pubsub
  redis_releasing = record {
    Entry = Controls;
    subscriptions = λ s. s.broker.subscriptions;
    subscribe_adds = λ channels s t sub h. (
      [],
      subscribe-front (next_reply s.replies) s.broker t.broker sub (ap (λ x. (x.0, x.1.broker)) h),
    );
    subscribe_inserts =
        λ channels s. (s.broker.next_id, [], subscribe-inserted (next_reply s.replies) s.broker);
    add_subscription_keeps = λ channel sub s cs rest h.
        add_subscription-front (next_reply s.replies) channel sub s.broker cs rest h;
    remove_subscription_keeps =
        λ channel sub s cs rest h. remove_subscription-front channel sub s.broker cs rest h;
    unsubscribe_drops = λ sub s cs rest h. unsubscribe-front sub s.broker cs rest h;
  }
