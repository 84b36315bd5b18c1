-- ===== src/Payments/Gateway/Tests.antt =====
-- The router on three mocks of which the second alone is up.
use payment_processing.Common.{◌≡◌, refl, true, false, [], ◌∷◌, ok}
use payment_processing.Payments.Models.{PaymentMethod}
use payment_processing.Payments.Gateway.{
  CheckoutSession, PaymentGateway, mock_gateway, pick_checkout,
}
use payment_processing.Payments.Gateway.Choice.{FirstSuccess, pick_checkout-eq-ok_iff}

abbrev down : PaymentGateway
down = mock_gateway (λ i. "7") (λ s. s) (record { gateway_name = "Razorpay"; should_fail = true })

abbrev up : PaymentGateway
up = mock_gateway (λ i. "7") (λ s. s) (record { gateway_name = "cashfree"; should_fail = false })

abbrev session : CheckoutSession
session = record {
  gateway = "cashfree";
  checkout_url = "https://mock-cashfree.example/checkout?order_id=7&payment_id=7";
  expires_at = 1000;
}

pick_second : pick_checkout (down ∷ up ∷ down ∷ []) 7 7 PaymentMethod.upi 100 ≡ ok session
unfolding pick_checkout mock_gateway
pick_second = refl

pick_checkout-eq-ok_iff_example :
    FirstSuccess 7 7 PaymentMethod.upi 100 (down ∷ up ∷ down ∷ []) session
pick_checkout-eq-ok_iff_example =
    (pick_checkout-eq-ok_iff 7 7 PaymentMethod.upi 100 (down ∷ up ∷ down ∷ []) session).0
      pick_second
