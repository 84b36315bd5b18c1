-- ===== src/Payments/EndToEnd.antt =====
-- A payment from the order to its confirmation: the handlers of approach-1/apps/api/src/main.rs and
-- the worker of approach-1/apps/worker/src/main.rs over one database, one Redis and one stream.
mod Tests
use payment_processing.Common.{suc, String, false, Option, take}
use payment_processing.Payments.Models.{PaymentMethod, GatewayWebhookEvent}
use payment_processing.Payments.Gateway.{CheckoutSession, PaymentGateway, pick_checkout}
use payment_processing.Payments.Redis.{Redis}
use payment_processing.Payments.Repository.{create_order, create_payment, execute}
use payment_processing.Payments.Repository.Statements.{payment_exists, insert_order, insert_payment}
use payment_processing.Payments.Repository.Settling.{settled}
use payment_processing.Payments.Worker.{World}
use payment_processing.Payments.Api.{
  CreateOrderRequest, create_order_handler, InitiatePaymentRequest, InitiatePaymentResponse,
  initiate_payment, from_path, StatusCode,
}

module _ (redis : Redis) (parse : String → Option GatewayWebhookEvent)
    (to_json : GatewayWebhookEvent → String) where
  open redis use {xadd, published}

  -- What the API puts into the queue for a webhook, and the shared state when the queue has taken it.
  abbrev pub payload_of : String → GatewayWebhookEvent → String
  payload_of gateway event = to_json (from_path gateway event)

  abbrev pub queued : String → World redis → World redis
  queued payload w = record w { store = (xadd "stream:webhooks" payload w.store).1 }
