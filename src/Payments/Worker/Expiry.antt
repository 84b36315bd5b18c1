-- ===== src/Payments/Worker/Expiry.antt =====
-- What becomes of the idempotency key of approach-1/apps/worker/src/main.rs after its hour.
use payment_processing.Common.{
  ℕ, ◌≤◌, String, ◌≡◌, ap, ◌≢◌, ◌∙◌, true, false, not, Option, some, arith,
}
use payment_processing.Payments.Models.{GatewayWebhookEvent}
use payment_processing.Payments.Redis.{Redis, absent, lasting, is_held, elapse}
use payment_processing.Payments.Worker.{World, idem_key, handle_event}
use payment_processing.Payments.Worker.Deliveries.{wait, process-KeepsKey}
use payment_processing.Payments.Worker.Effects.{Answers, marked, handle_event-new}

elapse-lasting : (t n : ℕ) → n ≤ t → elapse t (lasting n) ≡ absent
elapse-lasting t n h = ground arith

module _ (redis : Redis) (parse : String → Option GatewayWebhookEvent)
    (to_json : GatewayWebhookEvent → String) where
  open redis use {set_nx, lifetime, set_nx_answer, set_nx_sets, expire_sets, pass_lifetime}

  handle_event-lifetime :
      (payload : String) (event : GatewayWebhookEvent) (w : World redis)
      → parse payload ≡ some event
      → Answers redis event payload w.store
      → lifetime (idem_key event) (handle_event redis parse to_json payload w).1.store
        ≡ lasting 3600
  handle_event-lifetime payload event w known a =
      let key = idem_key event in
      let set = set_nx_sets key "1" w.store a.is_new in
      ap (λ r. lifetime key r.1.store)
        (handle_event-new redis parse to_json payload event w known a)
      ∙ process-KeepsKey redis parse to_json key payload event true
          (marked redis parse to_json event w)
      ∙ expire_sets key 3600 (set_nx key "1" w.store).1 (omega arith) (ap is_held set) a.expires

  -- When Redis has carried out the commands of a delivery and 3600 seconds or more have passed, SETNX
  -- does not answer that the key of the event is there: the event is no longer taken for a duplicate.
  pub expired_key_is_new :
      (payload : String) (event : GatewayWebhookEvent) (t : ℕ) (w : World redis)
      → parse payload ≡ some event
      → Answers redis event payload w.store
      → 3600 ≤ t
      → let w' = wait redis parse to_json t (handle_event redis parse to_json payload w).1 in
        (set_nx (idem_key event) "1" w'.store).0 ≢ some false
  expired_key_is_new payload event t w known a late answered =
      let key = idem_key event in
      let w' = (handle_event redis parse to_json payload w).1 in
      let is_new : false ≡ true =
        set_nx_answer key "1" _ false answered
        ∙ ap (λ l. not (is_held l))
            (pass_lifetime key t w'.store
              ∙ ap (elapse t) (handle_event-lifetime payload event w known a)
              ∙ elapse-lasting t 3600 late) in
      cc
