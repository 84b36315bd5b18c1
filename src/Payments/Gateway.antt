-- ===== src/Payments/Gateway.antt =====
-- approach-1/crates/adapters/src/gateway.rs: the gateway trait, the mock and the router.
-- `Utc::now()` is the argument `now`; an `anyhow` error is its text.
pub mod Choice
mod Tests
use payment_processing.Common.{
  ℕ, ◌+◌, ◌*◌, String, Bool, false, List, [], ◌∷◌, Option, none, some, Result, ok, err, unwrap_or,
  if◌then◌else◌,
}
use payment_processing.Common.Text.{◌++◌, ◌==◌}
use payment_processing.Payments.Models.{Uuid, PaymentMethod, PaymentStatus, GatewayWebhookEvent}

pub record CheckoutSession : Type 0 where
  pub gateway : String
  pub checkout_url : String
  pub expires_at : ℕ

pub record PaymentGateway : Type 0 where
  pub name : String
  pub create_checkout : Uuid → Uuid → PaymentMethod → ℕ → Result String CheckoutSession
  pub verify_webhook_signature : GatewayWebhookEvent → String → Bool
  pub fetch_payment_status : Uuid → Result String PaymentStatus

pub record MockGateway : Type 0 where
  pub gateway_name : String
  pub should_fail : Bool

-- The printed form of a `Uuid` and `str::to_lowercase` are the libraries'.
module _ (uuid_text : Uuid → String) (to_lowercase : String → String) where
  pub mock_create_checkout :
      MockGateway → Uuid → Uuid → PaymentMethod → ℕ → Result String CheckoutSession
  mock_create_checkout g order_id payment_id method now =
      if g.should_fail
      then err (g.gateway_name ++ " unavailable")
      else ok (record {
        gateway = g.gateway_name;
        checkout_url =
            "https://mock-"
            ++ (to_lowercase g.gateway_name
                ++ (".example/checkout?order_id="
                    ++ (uuid_text order_id ++ ("&payment_id=" ++ uuid_text payment_id))));
        expires_at = now + 15 * 60;
      })

  -- The methods of `impl PaymentGateway for MockGateway`.
  unfoldable pub mock_gateway : MockGateway → PaymentGateway
  unfolding mock_create_checkout
  mock_gateway g = record {
    name = g.gateway_name;
    create_checkout = mock_create_checkout g;
    verify_webhook_signature = λ event secret. event.signature == g.gateway_name ++ (":" ++ secret);
    fetch_payment_status = λ payment_id. ok PaymentStatus.success;
  }

  -- The gateways of approach-1/apps/api/src/main.rs.
  unfoldable pub gateways : List PaymentGateway
  unfolding mock_gateway
  gateways =
      mock_gateway (record { gateway_name = "Razorpay"; should_fail = false })
      ∷ mock_gateway (record { gateway_name = "Cashfree"; should_fail = false })
      ∷ mock_gateway (record { gateway_name = "Juspay"; should_fail = false })
      ∷ []

abbrev pub failure : PaymentGateway → String → String
failure g e = g.name ++ (" failed: " ++ e)

-- The loop of `pick_checkout`, over the gateways that are left and `last_error`.
pick_from :
    List PaymentGateway
    → Option String
    → Uuid
    → Uuid
    → PaymentMethod
    → ℕ
    → Result String CheckoutSession
pick_from [] last_error order_id payment_id method now =
    err (unwrap_or last_error "no gateway configured")
pick_from (g ∷ gs) last_error order_id payment_id method now =
    elim (g.create_checkout order_id payment_id method now) [
      | ok session ↦ ok session
      | err e ↦ pick_from gs (some (failure g e)) order_id payment_id method now
    ]

-- `SmartRouter::pick_checkout`
unfoldable pub pick_checkout :
    List PaymentGateway → Uuid → Uuid → PaymentMethod → ℕ → Result String CheckoutSession
unfolding pick_from
pick_checkout gateways = pick_from gateways none
