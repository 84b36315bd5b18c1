-- ===== src/Payments/Worker/Deliveries.antt =====
-- One webhook event delivered more than once: the idempotency key guards the database for as long as
-- Redis keeps it. Seconds pass before a delivery, and a delivery takes none.
use payment_processing.Common.{
  ℕ, ◌+◌, ◌<◌, String, ◌≡◌, refl, ap, sym, subst, Bool, true, false, ◌⊎◌, inl, inr, Option, some,
  Result, ok, err, arith, List, [], ◌∷◌, ◌∙◌,
}
use payment_processing.Payments.Models.{GatewayWebhookEvent}
use payment_processing.Payments.Redis.{
  Redis, Lifetime, lasting, forever, is_held, elapse, elapse-add, is_held-before,
}
use payment_processing.Payments.Repository.{log_transaction}
use payment_processing.Payments.Worker.{
  World, Work, ◌>>=◌, in_db, is_success_status, WorkError, redis_failed, idem_key, mark_if_absent,
  process, confirm, publish_payment_confirmed, handle_event,
}

-- Neither the tables nor what is published has changed.
abbrev pub SameEffects : (redis : Redis) → World redis → World redis → Type 0
SameEffects redis w w' =
    (w'.db.tables ≡ w.db.tables) × (redis.published w'.store ≡ redis.published w.store)

-- Each payload is one of an event with this idempotency key.
abbrev pub AllHaveKey : (String → Option GatewayWebhookEvent) → String → List (ℕ × String) → Type 0
AllHaveKey parse key [] = Unit
AllHaveKey parse key ((t, payload) ∷ deliveries) =
    ((event : GatewayWebhookEvent) × (parse payload ≡ some event) × (idem_key event ≡ key))
    × AllHaveKey parse key deliveries

-- The seconds that pass before the last of some deliveries.
abbrev pub total : List (ℕ × String) → ℕ
total [] = 0
total ((t, payload) ∷ deliveries) = t + total deliveries

module _ (redis : Redis) (parse : String → Option GatewayWebhookEvent)
    (to_json : GatewayWebhookEvent → String) where
  open redis use {
    Store, set_nx, expire, publish, pass, lifetime, published, set_nx_answer, set_nx_sets,
    set_nx_keeps, set_nx_published, expire_limits, publish_lifetime,
  }

  -- Seconds pass, for Redis and for the database.
  abbrev pub wait : ℕ → World redis → World redis
  wait t w = record w { db = record w.db { clock = w.db.clock + t }; store = pass t w.store }

  -- Deliveries of several payloads, one after the other, each after so many seconds.
  abbrev pub deliver_all : List (ℕ × String) → World redis → World redis
  deliver_all [] w = w
  deliver_all ((t, p) ∷ ps) w = deliver_all ps (handle_event redis parse to_json p (wait t w)).1

  mark_if_absent-held :
      (key : String) (ttl : ℕ) (w : World redis)
      → is_held (lifetime key w.store) ≡ true
      → let (r, w') = mark_if_absent redis key ttl w in
        ((r ≡ ok false) ⊎ (r ≡ err redis_failed))
        × SameEffects redis w w'
        × (lifetime key w'.store ≡ lifetime key w.store)
  unfolding mark_if_absent
  mark_if_absent-held key ttl w h = ground (
    arith,
    set_nx_answer key "1" w.store true,
    set_nx_answer key "1" w.store false,
    set_nx_published key "1" w.store,
    set_nx_keeps key key "1" w.store h,
  )

  -- A delivery of an event whose key is set changes neither the database nor what is published.
  handle_event-held :
      (payload : String) (event : GatewayWebhookEvent) (w : World redis)
      → parse payload ≡ some event
      → is_held (lifetime (idem_key event) w.store) ≡ true
      → let w' = (handle_event redis parse to_json payload w).1 in
        SameEffects redis w w'
        × (lifetime (idem_key event) w'.store ≡ lifetime (idem_key event) w.store)
  unfolding handle_event process
  handle_event-held payload event w known held =
      ground (arith, mark_if_absent-held (idem_key event) 3600 w held)

  -- A key that was just set lasts, or stays for ever if EXPIRE had no effect.
  abbrev IsMarked : ℕ → Lifetime → Type 0
  IsMarked ttl life = (life ≡ forever) ⊎ (life ≡ lasting ttl)

  mark_if_absent-IsMarked :
      (key : String) (ttl : ℕ) (w : World redis)
      → 0 < ttl
      → (set_nx key "1" w.store).0 ≡ some true
      → IsMarked ttl (lifetime key (mark_if_absent redis key ttl w).1.store)
  unfolding mark_if_absent
  mark_if_absent-IsMarked key ttl w h e =
      let set = set_nx_sets key "1" w.store e in
      ground (arith, expire_limits key ttl (set_nx key "1" w.store).1 h)

  abbrev pub KeepsKey : String → {A : Type 0} → Work redis A → Type 0
  KeepsKey key m = (w : World redis) → lifetime key (m w).1.store ≡ lifetime key w.store

  bind-KeepsKey :
      (key : String) {A B : Type 0} (m : Work redis A) (f : A → Work redis B)
      → KeepsKey key m
      → ((a : A) → KeepsKey key (f a))
      → KeepsKey key (◌>>=◌ redis m f)
  bind-KeepsKey key {A} {B} m f hm hf w = after (m w).0 (m w).1 ∙ hm w
    where
      after :
          (r : Result WorkError A) (w' : World redis)
          → lifetime key
              (elim r as (λ x. Result WorkError B × World redis) [
                | ok a ↦ f a w'
                | err e ↦ (err e, w')
              ]).1.store
            ≡ lifetime key w'.store
      after (ok a) w' = hf a w'
      after (err e) w' = refl

  confirm-KeepsKey :
      (key payload : String) (event : GatewayWebhookEvent) (b : Bool)
      → KeepsKey key (confirm redis parse to_json event payload b)
  unfolding confirm publish_payment_confirmed
  confirm-KeepsKey key payload event b w =
      ground (arith, publish_lifetime key "payments.confirmed" payload w.store)

  pub process-KeepsKey :
      (key payload : String) (event : GatewayWebhookEvent) (b : Bool)
      → KeepsKey key (process redis parse to_json event payload b)
  unfolding process
  process-KeepsKey key payload event false = λ w. refl
  process-KeepsKey key payload event true =
      bind-KeepsKey key (in_db redis (log_transaction to_json event))
        (λ _. confirm redis parse to_json event payload (is_success_status event.status))
        (λ w. refl) (λ _. confirm-KeepsKey key payload event (is_success_status event.status))

  handle_event-IsMarked :
      (payload : String) (event : GatewayWebhookEvent) (w : World redis)
      → parse payload ≡ some event
      → (set_nx (idem_key event) "1" w.store).0 ≡ some true
      → IsMarked 3600
          (lifetime (idem_key event) (handle_event redis parse to_json payload w).1.store)
  unfolding handle_event
  handle_event-IsMarked payload event w known e = rw known (
      carry (mark_if_absent redis (idem_key event) 3600 w).0 _
        (mark_if_absent-IsMarked (idem_key event) 3600 w (omega arith) e))
    where
      carry :
          (r : Result WorkError Bool) (w' : World redis)
          → IsMarked 3600 (lifetime (idem_key event) w'.store)
          → IsMarked 3600 (
              lifetime
                (idem_key event)
                (elim r as (λ x. Result WorkError (Unit {0}) × World redis) [
                  | ok a ↦ process redis parse to_json event payload a w'
                  | err x ↦ (err x, w')
                ]).1.store)
      carry (ok a) w' h =
          subst (IsMarked 3600) (sym (process-KeepsKey (idem_key event) payload event a w')) h
      carry (err x) w' h = h

  IsMarked-lasts :
      (ttl t : ℕ) (life : Lifetime) → IsMarked ttl life → t < ttl → is_held (elapse t life) ≡ true
  IsMarked-lasts ttl t life (inl e) h = rw e refl
  IsMarked-lasts ttl t life (inr e) h = rw e (ground arith)

  deliver_all-held :
      (key : String) (deliveries : List (ℕ × String)) (w : World redis)
      → AllHaveKey parse key deliveries
      → is_held (elapse (total deliveries) (lifetime key w.store)) ≡ true
      → SameEffects redis w (deliver_all deliveries w)
  deliver_all-held key [] w _ held = (refl, refl)
  deliver_all-held key ((t, p) ∷ ps) w ((event, known, same), rest) held =
      let waited = wait t w in
      let w' = (handle_event redis parse to_json p waited).1 in
      let aged = redis.pass_lifetime key t w.store in
      let lasts : is_held (elapse (total ps) (lifetime key waited.store)) ≡ true =
        ap (λ l. is_held (elapse (total ps) l)) aged
        ∙ ap is_held (sym (elapse-add t (total ps) (lifetime key w.store)))
        ∙ held in
      let (effects, life) =
        handle_event-held p event waited known (rw same (is_held-before (total ps) _ lasts)) in
      let others = deliver_all-held key ps w' rest (
        ap (λ l. is_held (elapse (total ps) l))
          (subst (λ k. lifetime k w'.store ≡ lifetime k waited.store) same life)
        ∙ lasts) in
      (others.0 ∙ effects.0, others.1 ∙ effects.1 ∙ redis.pass_published t w.store)

  -- Within the hour, an event is processed at most once: when its first delivery found its key new,
  -- whatever failed after that, deliveries under its key that all come in less than 3600 seconds
  -- change neither the tables nor what is published.
  pub deliver_all_once :
      (payload : String) (event : GatewayWebhookEvent) (later : List (ℕ × String)) (w : World redis)
      → parse payload ≡ some event
      → (set_nx (idem_key event) "1" w.store).0 ≡ some true
      → AllHaveKey parse (idem_key event) later
      → total later < 3600
      → let w' = (handle_event redis parse to_json payload w).1 in
        SameEffects redis w' (deliver_all later w')
  deliver_all_once payload event later w known new same soon =
      deliver_all-held (idem_key event) later _ same
        (IsMarked-lasts 3600 (total later) _ (handle_event-IsMarked payload event w known new) soon)
