-- ===== src/Payments/Worker/Effects.antt =====
-- What the delivery of a new event does to the database.
use payment_processing.Common.{
  ℕ, ◌<◌, String, ◌≡◌, ◌≢◌, ◌∙◌, ap, true, List, [], ◌∷◌, Option, some, ok, err, arith,
}
use payment_processing.Payments.Models.{PaymentStatus, GatewayWebhookEvent}
use payment_processing.Payments.Redis.{Redis}
use payment_processing.Payments.Repository.{
  Session, connection, Outcome, refused, log_transaction, execute, later,
}
use payment_processing.Payments.Repository.Statements.{insert_transaction}
use payment_processing.Payments.Repository.Settling.{settled, mark_payment_success_served}
use payment_processing.Payments.Worker.{
  World, database, idem_key, mark_if_absent, process, confirm, publish_payment_confirmed,
  handle_event,
}
use payment_processing.Payments.Worker.Deliveries.{AllHaveKey, total, deliver_all, deliver_all_once}

-- Redis carries out the commands of one delivery: the key is new, and each command answers.
pub record Answers (redis : Redis) (event : GatewayWebhookEvent) (payload : String)
    (s : redis.Store) : Type 0 where
  pub is_new : (redis.set_nx (idem_key event) "1" s).0 ≡ some true
  pub expires :
      (redis.expire (idem_key event) 3600 (redis.set_nx (idem_key event) "1" s).1).0 ≡ some tt
  pub publishes :
      (redis.publish "payments.confirmed" payload
        (redis.expire (idem_key event) 3600 (redis.set_nx (idem_key event) "1" s).1).1).0
      ≡ some tt

module _ (redis : Redis) (parse : String → Option GatewayWebhookEvent)
    (to_json : GatewayWebhookEvent → String) where
  open redis use {
    Store, set_nx, expire, publish, published, publish_published, set_nx_published,
    expire_published,
  }

  -- The server after `mark_if_absent` has set a new key and its expiry.
  abbrev pub marked : GatewayWebhookEvent → World redis → World redis
  marked event w = record w {
    store = (expire (idem_key event) 3600 (set_nx (idem_key event) "1" w.store).1).1;
  }

  mark_if_absent-new :
      (payload : String) (event : GatewayWebhookEvent) (w : World redis)
      → Answers redis event payload w.store
      → mark_if_absent redis (idem_key event) 3600 w ≡ (ok true, marked event w)
  unfolding mark_if_absent
  mark_if_absent-new payload event w a = ground arith

  pub handle_event-new :
      (payload : String) (event : GatewayWebhookEvent) (w : World redis)
      → parse payload ≡ some event
      → Answers redis event payload w.store
      → handle_event redis parse to_json payload w
        ≡ process redis parse to_json event payload true (marked event w)
  unfolding handle_event
  handle_event-new payload event w known a = ground (arith, mark_if_absent-new payload event w a)

  published-marked :
      (event : GatewayWebhookEvent) (w : World redis)
      → published (marked event w).store ≡ published w.store
  published-marked event w =
      expire_published (idem_key event) 3600 (set_nx (idem_key event) "1" w.store).1
      ∙ set_nx_published (idem_key event) "1" w.store

  -- The log entry touches neither payments nor orders, whatever becomes of it.
  pub log_transaction_frame :
      (event : GatewayWebhookEvent) (s : Session)
      → let s' = (log_transaction to_json event s).1 in
        (s'.tables.orders ≡ s.tables.orders)
        × (s'.tables.payments ≡ s.tables.payments)
        × (s'.outcomes ≡ later s.outcomes)
  unfolding log_transaction execute insert_transaction
  log_transaction_frame event s = ground arith

  pub process_success :
      (payload : String) (event : GatewayWebhookEvent) (w : World redis) (s : Session)
      → event.status ≡ PaymentStatus.success
      → log_transaction to_json event w.db ≡ (ok tt, s)
      → s.outcomes ≡ []
      → (publish "payments.confirmed" payload w.store).0 ≡ some tt
      → process redis parse to_json event payload true w ≡ (
        ok tt,
        record {
          db = record s { tables = settled event.payment_id event.order_id s.clock s.tables };
          store = (publish "payments.confirmed" payload w.store).1;
        },
      )
  unfolding process confirm publish_payment_confirmed log_transaction execute
  process_success payload event w s status logged served sent =
      rw (logged, status)
        (ground (arith, mark_payment_success_served event.payment_id event.order_id s served))

  -- A new success whose log entry meets a lost connection: the delivery fails with the tables as they
  -- were, and deliveries of that event, or of any other under its key, that all come in less than 3600
  -- seconds change neither the tables nor what is published: no redelivery in that time confirms
  -- the payment.
  pub unlogged_success_is_lost :
      (payload : String) (event : GatewayWebhookEvent) (later_deliveries : List (ℕ × String))
      (os : List Outcome) (w : World redis)
      → parse payload ≡ some event
      → event.status ≡ PaymentStatus.success
      → Answers redis event payload w.store
      → w.db.outcomes ≡ refused ∷ os
      → AllHaveKey parse (idem_key event) later_deliveries
      → total later_deliveries < 3600
      → let (r, w') = handle_event redis parse to_json payload w in
        (r ≡ err (database connection))
        × ((deliver_all redis parse to_json later_deliveries w').db.tables ≡ w.db.tables)
        × (published (deliver_all redis parse to_json later_deliveries w').store
            ≡ published w.store)
  unfolding process log_transaction execute
  unlogged_success_is_lost payload event later_deliveries os w known status a lost same soon =
      let first : handle_event redis parse to_json payload w ≡ (
        err (database connection),
        record (marked event w) { db = (log_transaction to_json event w.db).1 },
      ) =
        handle_event-new payload event w known a ∙ ground arith in
      let again =
        deliver_all_once redis parse to_json payload event later_deliveries w known a.is_new same
          soon in
      (
        ap (λ x. x.0) first,
        again.0 ∙ ap (λ x. x.1.db.tables) first ∙ ground arith,
        again.1 ∙ ap (λ x. published x.1.store) first ∙ published-marked event w,
      )

  -- A delivery of an event that is no success changes no payment and no order, whatever the
  -- environment answers: a payment that the gateway reports as failed stays as it was.
  pub handle_event_unsettled :
      (payload : String) (event : GatewayWebhookEvent) (w : World redis)
      → parse payload ≡ some event
      → event.status ≢ PaymentStatus.success
      → let t = (handle_event redis parse to_json payload w).1.db.tables in
        (t.payments ≡ w.db.tables.payments) × (t.orders ≡ w.db.tables.orders)
  unfolding handle_event mark_if_absent process confirm
  handle_event_unsettled payload event w known status =
      ground (arith, log_transaction_frame event w.db)
