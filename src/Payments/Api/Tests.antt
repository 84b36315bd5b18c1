-- ===== src/Payments/Api/Tests.antt =====
-- The handlers on an empty database and on one order.
use payment_processing.Common.{ℕ, ◌+◌, ◌≡◌, ◌≢◌, refl, List, [], ◌∷◌, ok, true, false, arith}
use payment_processing.Payments.Models.{pos, PaymentMethod, PaymentStatus, GatewayWebhookEvent}
use payment_processing.Payments.Gateway.{
  CheckoutSession, PaymentGateway, mock_gateway, pick_checkout,
}
use payment_processing.Payments.Redis.Memory.{memory}
use payment_processing.Payments.Repository.{OrderRow, Session, create_payment, execute}
use payment_processing.Payments.Repository.Statements.{insert_payment, payment_exists}
use payment_processing.Payments.Api.{
  CreateOrderRequest, create_order_handler, get_order, initiate_payment, Hub,
}
use payment_processing.Payments.Api.Flows.{get_order-create_order, initiate_payment_identifiers}

abbrev session : List OrderRow → Session
session orders = record {
  tables = record { orders = orders; payments = []; transactions = []; settlements = [] };
  outcomes = [];
  random = λ n. 50 + n;
  drawn = 0;
  clock = 7;
}

abbrev request : CreateOrderRequest
request = record { user_id = "u1"; amount = pos 45000; currency = "INR" }

get_order-create_order_example :
    let (r, s) = create_order_handler request (session []) in
    (r ≡ ok (record { order_id = 50; status = "PENDING" }))
    × ((get_order 50 s).0 ≡ ok (50, "PENDING"))
get_order-create_order_example = get_order-create_order request (session []) refl refl

abbrev order : OrderRow
order = record {
  id = 1;
  user_id = "u1";
  amount = pos 5;
  currency = "INR";
  status = "PENDING";
  created_at = 0;
  updated_at = 0;
}

abbrev gateway : PaymentGateway
gateway =
    mock_gateway (λ i. "x") (λ s. s) (record { gateway_name = "razorpay"; should_fail = false })

initiate_payment_identifiers_example :
    let end =
      (initiate_payment
        (gateway ∷ [])
        (record { order_id = 1; payment_method = PaymentMethod.upi })
        (session (order ∷ []))).1 in
    (c : CheckoutSession) × (pick_checkout (gateway ∷ []) 1 50 PaymentMethod.upi 7 ≡ ok c)
    × ("https://mock-razorpay.example/checkout?order_id=x&payment_id=x" ≡ c.checkout_url)
    × (◌≡◌ {A = ℕ} 51 51)
    × (◌≢◌ {A = ℕ} 50 51)
    × (payment_exists end.tables 51 ≡ true)
    × (payment_exists end.tables 50 ≡ false)
unfolding initiate_payment pick_checkout mock_gateway create_payment execute insert_payment
initiate_payment_identifiers_example =
    initiate_payment_identifiers (gateway ∷ [])
      (record { order_id = 1; payment_method = PaymentMethod.upi }) (session (order ∷ []))
      (record {
        payment_id = 51;
        gateway = "razorpay";
        checkout_url = "https://mock-razorpay.example/checkout?order_id=x&payment_id=x";
        expires_at = 907;
      })
      (omega arith) refl refl

abbrev event : GatewayWebhookEvent
event = record {
  event_id = "evt_1";
  gateway = "claimed";
  order_id = 1;
  payment_id = 2;
  gateway_txn_id = "txn_1";
  status = PaymentStatus.success;
  amount = pos 5;
  signature = "";
  occurred_at = 3;
}

abbrev hub : Hub memory
hub = record {
  world = record { db = session []; store = record { keys = []; messages = []; entries = [] } };
  ws_sent = [];
}
