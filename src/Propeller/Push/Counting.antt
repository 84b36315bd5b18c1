-- ===== src/Propeller/Push/Counting.antt =====
-- The count of connections against the clients that came and went.
use payment_processing.Common.{
  inl, inr, ℕ, ◌+◌, ◌%◌, ◌^◌, String, ◌≡◌, refl, ap, List, [], ◌∷◌, Option, Result, ok, err, arith,
}
use payment_processing.Propeller.Config.{ClientConfig}
use payment_processing.Propeller.Error.{PropellerError}
use payment_processing.Propeller.Metrics.{increment, decrement}
use payment_processing.Propeller.Action.{outcome}
use payment_processing.Propeller.Ports.{PubSub, KeyValue}
use payment_processing.Propeller.Push.{World, Json, Device, subscribe_client, unsubscribe_client}

-- What reaches the service: a client that subscribes, and one that leaves with its subscription.
pub data Visit : Type 0 where
  arrive : (tenant_id client_id : String) → Option Device → Visit
  leave : (tenant_id client_id : String) → ℕ → Option Device → Visit

join :
    (a b c d e f g : ℕ)
    → (a + b) % 2 ^ 64 ≡ (d + e) % 2 ^ 64
    → (d + c) % 2 ^ 64 ≡ (f + g) % 2 ^ 64
    → (a + (c + b)) % 2 ^ 64 ≡ (f + (g + e)) % 2 ^ 64
join a b c d e f g h k = omega arith

module _ {S K : Type 0} (pubsub : PubSub S) (kv : KeyValue K) (json : Json)
    (config : ClientConfig) where
  -- A client that is refused changes neither the store nor the counters.
  pub subscribe_client-err :
      (tenant_id client_id : String) (device : Option Device) (w end : World S K)
      (e : PropellerError)
      → subscribe_client pubsub kv json config tenant_id client_id device w ≡ (err e, end)
      → (end.kv ≡ w.kv) × (end.metrics ≡ w.metrics)
  unfolding subscribe_client
  subscribe_client-err tenant_id client_id device w end e h = ground arith

  pub subscribe_client-counts :
      (tenant_id client_id : String) (device : Option Device) (w end : World S K) (sub : ℕ)
      → subscribe_client pubsub kv json config tenant_id client_id device w ≡ (ok sub, end)
      → end.metrics ≡ record w.metrics { connections = increment w.metrics.connections }
  unfolding subscribe_client
  subscribe_client-counts tenant_id client_id device w end sub h = ground arith

  pub unsubscribe_client-counts :
      (tenant_id client_id : String) (sub : ℕ) (device : Option Device) (w : World S K)
      → (unsubscribe_client pubsub kv json config tenant_id client_id sub device w).1.metrics
        ≡ record w.metrics { connections = decrement w.metrics.connections }
  unfolding unsubscribe_client
  unsubscribe_client-counts tenant_id client_id sub device w = ground arith

  -- The state that a visit leaves, and the connections that it opens and closes.
  abbrev pub visit : Visit → World S K → World S K
  visit (arrive tenant_id client_id device) w =
      (subscribe_client pubsub kv json config tenant_id client_id device w).1
  visit (leave tenant_id client_id sub device) w =
      (unsubscribe_client pubsub kv json config tenant_id client_id sub device w).1

  abbrev let_in : Result PropellerError ℕ → ℕ
  let_in (ok sub) = 1
  let_in (err e) = 0

  abbrev pub opens : Visit → World S K → ℕ
  opens (arrive tenant_id client_id device) w =
      let_in (subscribe_client pubsub kv json config tenant_id client_id device w).0
  opens (leave tenant_id client_id sub device) w = 0

  abbrev pub closes : Visit → ℕ
  closes (arrive tenant_id client_id device) = 0
  closes (leave tenant_id client_id sub device) = 1

  -- The same for visits in their order.
  abbrev pub run : List Visit → World S K → World S K
  run [] w = w
  run (v ∷ vs) w = run vs (visit v w)

  abbrev pub opened : List Visit → World S K → ℕ
  opened [] w = 0
  opened (v ∷ vs) w = opens v w + opened vs (visit v w)

  abbrev pub closed : List Visit → ℕ
  closed [] = 0
  closed (v ∷ vs) = closes v + closed vs

  arrive-connections :
      (tenant_id client_id : String) (device : Option Device) (w : World S K)
      → (visit (arrive tenant_id client_id device) w).metrics.connections % 2 ^ 64
        ≡ (w.metrics.connections + opens (arrive tenant_id client_id device) w) % 2 ^ 64
  arrive-connections tenant_id client_id device w =
      elim (outcome (subscribe_client pubsub kv json config tenant_id client_id device w)) [
        | inl (sub, end, eq) ↦ omega (
          arith,
          ap (λ r. r.1.metrics.connections) eq,
          ap (λ r. let_in r.0) eq,
          ap (λ m. m.connections) (subscribe_client-counts tenant_id client_id device w end sub eq),
        )
        | inr (e, end, eq) ↦ omega (
          arith,
          ap (λ r. r.1.metrics.connections) eq,
          ap (λ r. let_in r.0) eq,
          ap (λ m. m.connections) (subscribe_client-err tenant_id client_id device w end e eq).1,
        )
      ]

  visit-connections :
      (v : Visit) (w : World S K)
      → ((visit v w).metrics.connections + closes v) % 2 ^ 64
        ≡ (w.metrics.connections + opens v w) % 2 ^ 64
  visit-connections (arrive tenant_id client_id device) w =
      omega (arith, arrive-connections tenant_id client_id device w)
  visit-connections (leave tenant_id client_id sub device) w =
      rw (ap (λ m. m.connections) (unsubscribe_client-counts tenant_id client_id sub device w))
        (omega arith)

  -- After any visits, the counter has grown by the clients that were let in and shrunk by those that
  -- left, up to the wrap-around of 64 bits; a client that is refused is not counted.
  pub run-connections :
      (vs : List Visit) (w : World S K)
      → ((run vs w).metrics.connections + closed vs) % 2 ^ 64
        ≡ (w.metrics.connections + opened vs w) % 2 ^ 64
  run-connections [] w = refl
  run-connections (v ∷ vs) w =
      join ((run vs (visit v w)).metrics.connections) (closed vs) (closes v)
        ((visit v w).metrics.connections) (opened vs (visit v w)) (w.metrics.connections)
        (opens v w) (run-connections vs (visit v w)) (visit-connections v w)
