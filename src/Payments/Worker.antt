-- ===== src/Payments/Worker.antt =====
-- approach-1/apps/worker/src/main.rs with the adapters idempotency.rs, queue.rs and realtime.rs of
-- approach-1/crates/adapters/src. The Redis server and the JSON codec are parameters.
pub mod Deliveries
pub mod Effects
pub mod Expiry
pub mod Reconciliation
pub mod Keys
pub mod Stream
pub mod Unsettled
pub mod Polling
mod Tests
use payment_processing.Common.{
  ℕ, zero, suc, String, ◌≡◌, Bool, true, false, List, [], ◌∷◌, Option, none, some, Result, ok, err,
  if◌then◌else◌,
}
use payment_processing.Common.Text.{◌++◌}
use payment_processing.Payments.Models.{Uuid, pos, PaymentStatus, GatewayWebhookEvent}
use payment_processing.Payments.Redis.{Redis}
use payment_processing.Payments.Repository.{
  Session, Action, DbError, log_transaction, mark_payment_success, pending_payments,
  insert_settlement_for,
}

pub data WorkError : Type 0 where
  malformed redis_failed : WorkError
  database : DbError → WorkError

-- `format!("idemp:webhook:{}:{}", event.gateway, event.event_id)`
unfoldable pub idem_key : GatewayWebhookEvent → String
idem_key event = "idemp:webhook:" ++ (event.gateway ++ (":" ++ event.event_id))

-- `matches!(event.status, PaymentStatus::Success)`
abbrev pub is_success_status : PaymentStatus → Bool
is_success_status PaymentStatus.pending = false
is_success_status PaymentStatus.success = true
is_success_status PaymentStatus.failed = false

module _ (redis : Redis) where
  open redis use {Store, set_nx, expire, publish, xadd, xread}

  -- What the worker's tasks share: the database session and the Redis server.
  pub record World : Type 0 where
    pub db : Session
    pub store : Store

  abbrev pub Work : Type 0 → Type 0
  Work A = World → Result WorkError A × World

  infixl 5 ◌>>=◌ ◌>>◌
  abbrev pub ◌>>=◌ : {A B : Type 0} → Work A → (A → Work B) → Work B
  ◌>>=◌ m f w = let (r, w') = m w in elim r [ ok a ↦ f a w' | err e ↦ (err e, w') ]

  abbrev pub ◌>>◌ : {A B : Type 0} → Work A → Work B → Work B
  m >> k = m >>= λ _. k

  abbrev pub done : Work (Unit {0})
  done w = (ok tt, w)

  abbrev from_db : {A : Type 0} → Result DbError A → Result WorkError A
  from_db (ok a) = ok a
  from_db (err e) = err (database e)

  -- A call of the repository.
  abbrev pub in_db : {A : Type 0} → Action A → Work A
  in_db m w = let (r, s) = m w.db in (from_db r, record w { db = s })

  abbrev from_redis : {A : Type 0} → Option A → Result WorkError A
  from_redis none = err redis_failed
  from_redis (some a) = ok a

  -- A Redis command.
  abbrev pub in_redis : {A : Type 0} → (Store → Option A × Store) → Work A
  in_redis command w = let (r, s) = command w.store in (from_redis r, record w { store = s })

  abbrev pub set_expiry : String → ℕ → Bool → Work Bool
  set_expiry key ttl_seconds true = in_redis (expire key ttl_seconds) >> λ w. (ok true, w)
  set_expiry key ttl_seconds false = λ w. (ok false, w)

  -- `IdempotencyStore::mark_if_absent`
  unfoldable pub mark_if_absent : String → ℕ → Work Bool
  mark_if_absent key ttl_seconds = do
    was_set ← in_redis (set_nx key "1")
    set_expiry key ttl_seconds was_set

  -- `RealtimePublisher::publish_payment_confirmed`
  unfoldable pub publish_payment_confirmed : String → Work (Unit {0})
  publish_payment_confirmed payload = in_redis (publish "payments.confirmed" payload)

  module _ (parse : String → Option GatewayWebhookEvent)
      (to_json : GatewayWebhookEvent → String) where
    abbrev parsed : Option GatewayWebhookEvent → Work GatewayWebhookEvent
    parsed none w = (err malformed, w)
    parsed (some event) w = (ok event, w)

    -- The part of `handle_event` that a success alone reaches.
    unfoldable pub confirm : GatewayWebhookEvent → String → Bool → Work (Unit {0})
    confirm event payload true = do
      in_db (mark_payment_success event.payment_id event.order_id)
      publish_payment_confirmed payload
    confirm event payload false = done

    unfoldable pub process : GatewayWebhookEvent → String → Bool → Work (Unit {0})
    process event payload false = done
    process event payload true = do
      in_db (log_transaction to_json event)
      confirm event payload (is_success_status event.status)

    unfoldable pub handle_event : String → Work (Unit {0})
    unfolding process
    handle_event payload = do
      event ← parsed (parse payload)
      should_process ← mark_if_absent (idem_key event) 3600
      process event payload should_process

    -- The `for` loop over the events of one read: a failure is logged and passed over.
    unfoldable pub handle_all : List (String × String) → String → World → String × World
    unfolding handle_event
    handle_all [] last_id w = (last_id, w)
    handle_all ((stream_id, payload) ∷ events) last_id w =
        handle_all events stream_id (handle_event payload w).1

  -- The entries that hold a payload, in order: the loop of `WebhookQueue::read_after`.
  unfoldable pub with_payload : List (String × Option String) → List (String × String)
  with_payload [] = []
  with_payload ((id, none) ∷ entries) = with_payload entries
  with_payload ((id, some payload) ∷ entries) = (id, payload) ∷ with_payload entries

  -- `WebhookQueue::read_after` and `WebhookQueue::enqueue` on a stream.
  unfoldable pub read_after : String → String → ℕ → Work (List (String × String))
  unfolding with_payload
  read_after stream last_id count = do
    entries ← in_redis (xread stream last_id count)
    λ w. (ok (with_payload entries), w)

  unfoldable pub enqueue : String → String → Work (Unit {0})
  enqueue stream payload = in_redis (xadd stream payload)

  module _ (parse : String → Option GatewayWebhookEvent)
      (to_json : GatewayWebhookEvent → String) where
    abbrev handle_read : String → Result WorkError (List (String × String)) × World → String × World
    handle_read last_id (ok events, w) = handle_all parse to_json events last_id w
    handle_read last_id (err e, w) = (last_id, w)

    -- One round of the loop of `process_webhooks`, from and to the last identifier.
    unfoldable pub poll : String → World → String × World
    unfolding handle_all read_after
    poll last_id w = handle_read last_id (read_after "stream:webhooks" last_id 50 w)

    abbrev pub polls : ℕ → String → World → String × World
    polls zero last_id w = (last_id, w)
    polls (suc n) last_id w = let (id, w') = poll last_id w in polls n id w'

    -- So many rounds of `process_webhooks`.
    unfoldable pub process_webhooks : ℕ → World → String × World
    process_webhooks rounds w = polls rounds "0-0" w

  module _ (uuid_text : Uuid → String) where
    -- The `for` loop of `reconcile_once`, which the first failure ends.
    unfoldable pub reconcile_all : List (Uuid × Uuid × String) → Work (Unit {0})
    reconcile_all [] = done
    reconcile_all ((payment_id, order_id, gateway) ∷ pending) =
        in_db (mark_payment_success payment_id order_id)
        >> in_db (insert_settlement_for uuid_text payment_id gateway (pos 100))
        >> reconcile_all pending

    unfoldable pub reconcile_once : Work (Unit {0})
    unfolding reconcile_all
    reconcile_once = do pending ← in_db pending_payments; reconcile_all pending

    -- So many rounds of `run_reconciliation`, which logs a failure and goes on.
    unfoldable pub run_reconciliation : ℕ → World → World
    unfolding reconcile_once
    run_reconciliation zero w = w
    run_reconciliation (suc n) w = run_reconciliation n (reconcile_once w).1
