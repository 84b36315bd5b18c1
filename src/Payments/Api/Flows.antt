-- ===== src/Payments/Api/Flows.antt =====
-- Orders and payments through the handlers.
use payment_processing.Common.{
  suc, String, ◌==◌, ◌≡◌, ◌≢◌, refl, false, true, List, [], ◌∷◌, any, none, some, ok, err, arith,
  inl, inr, Result-cases, ◌⊎◌,
}
use payment_processing.Payments.Models.{Uuid, GatewayWebhookEvent}
use payment_processing.Payments.Gateway.{CheckoutSession, PaymentGateway, pick_checkout}
use payment_processing.Payments.Repository.{
  OrderRow, Session, create_order, create_payment, execute, fetch,
}
use payment_processing.Payments.Repository.Statements.{
  order_exists, payment_exists, insert_order, insert_payment,
}
use payment_processing.Payments.Api.{
  not_found_error, CreateOrderRequest, create_order_handler, InitiatePaymentRequest,
  InitiatePaymentResponse, initiate_payment, select_order, get_order, Hub, from_path,
  receive_webhook, accepted, internal,
}
use payment_processing.Payments.Worker.{enqueue}
use payment_processing.Payments.Redis.{Redis}

-- An order that has just been created is found under its identifier and is pending, if the
-- identifier drawn is new and every round trip is served.
pub get_order-create_order :
    (req : CreateOrderRequest) (s : Session)
    → s.outcomes ≡ []
    → order_exists s.tables (s.random s.drawn) ≡ false
    → let (r, s') = create_order_handler req s in
      (r ≡ ok (record { order_id = s.random s.drawn; status = "PENDING" }))
      × ((get_order (s.random s.drawn) s').0 ≡ ok (s.random s.drawn, "PENDING"))
unfolding create_order_handler get_order create_order execute fetch insert_order
get_order-create_order req s served new = ground arith

select_order-none :
    (id : Uuid) (os : List OrderRow) → any (λ o. o.id == id) os ≡ false → select_order id os ≡ none
unfolding select_order
select_order-none id [] h = refl
select_order-none id (o ∷ os) h = ground (arith, select_order-none id os)

-- The answer for an order that is not on record is 404, and only the outcome of the query is used.
pub get_order_missing :
    (id : Uuid) (s : Session)
    → s.outcomes ≡ []
    → order_exists s.tables id ≡ false
    → get_order id s ≡ (err (not_found_error "order not found"), s)
unfolding get_order fetch
get_order_missing id s served missing = ground (arith, select_order-none id s.tables.orders)

-- When a payment is initiated, the two identifiers drawn differ, and no payment has the first: the
-- gateway was asked to open the checkout of the response for the first one, the response gives the
-- second one, which is another, and after the call a payment with the second is on record, and none
-- with the first.
pub initiate_payment_identifiers :
    (router : List PaymentGateway) (req : InitiatePaymentRequest) (s : Session)
    (resp : InitiatePaymentResponse)
    → s.random s.drawn ≢ s.random (suc s.drawn)
    → payment_exists s.tables (s.random s.drawn) ≡ false
    → (initiate_payment router req s).0 ≡ ok resp
    → let s' = (initiate_payment router req s).1 in
      let asked = s.random s.drawn in
      (session : CheckoutSession) × (pick_checkout router req.order_id asked req.payment_method
          s.clock
        ≡ ok session)
      × (resp.checkout_url ≡ session.checkout_url)
      × (resp.payment_id ≡ s.random (suc s.drawn))
      × (asked ≢ resp.payment_id)
      × (payment_exists s'.tables resp.payment_id ≡ true)
      × (payment_exists s'.tables asked ≡ false)
unfolding initiate_payment create_payment execute insert_payment
initiate_payment_identifiers router req s resp differ new e =
    elim (Result-cases
      (pick_checkout router req.order_id (s.random s.drawn) req.payment_method s.clock)) [
        | inl (session, opened) ↦
            (session, opened, ground arith, ground arith, ground arith, ground arith, ground arith)
        | inr (m, failed) ↦ absurd (ground arith)
      ]

module _ (redis : Redis) (to_json : GatewayWebhookEvent → String) where
  open redis use {xadd}

  -- A webhook is accepted exactly if the queue has taken its payload, which names the gateway of
  -- the path; then that payload goes to the sockets, and otherwise nothing does. The database is
  -- not touched.
  pub receive_webhook_lem :
      (gateway : String) (event : GatewayWebhookEvent) (hub : Hub redis)
      → let payload = to_json (from_path gateway event) in
        let (r, hub') = receive_webhook redis to_json gateway event hub in
        (hub'.world.db ≡ hub.world.db)
        × ((((xadd "stream:webhooks" payload hub.world.store).0 ≡ some tt)
              × (r ≡ ok accepted)
              × (hub'.ws_sent ≡ payload ∷ hub.ws_sent))
            ⊎ (((xadd "stream:webhooks" payload hub.world.store).0 ≡ none)
                × (r ≡ err internal)
                × (hub'.ws_sent ≡ hub.ws_sent)))
  unfolding receive_webhook enqueue
  receive_webhook_lem gateway event hub = ground arith
