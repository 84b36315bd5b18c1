-- ===== src/Payments/Api.antt =====
-- approach-1/apps/api/src/main.rs: the handlers. A handler takes the state that the handlers share
-- and gives its response and the new state.
pub mod Flows
pub mod Feed
mod Tests
use payment_processing.Common.{
  ℕ, String, ◌==◌, Bool, List, [], ◌∷◌, Option, none, some, Result, ok, err, map_err, if◌then◌else◌,
}
use payment_processing.Payments.Models.{Uuid, ℤ, PaymentMethod, GatewayWebhookEvent}
use payment_processing.Payments.Gateway.{CheckoutSession, PaymentGateway, pick_checkout}
use payment_processing.Payments.Redis.{Redis}
use payment_processing.Payments.Repository.{
  OrderRow, Tables, Session, Action, DbError, fetch, new_v4, create_order, create_payment,
}
use payment_processing.Payments.Worker.{World, enqueue}

pub data StatusCode : Type 0 where
  accepted not_found internal_server_error : StatusCode

pub record ApiError : Type 0 where
  pub code : StatusCode
  pub message : String

-- `ApiError::internal` and `ApiError::not_found`
abbrev pub internal : ApiError
internal = record { code = internal_server_error; message = "internal server error" }

abbrev pub not_found_error : String → ApiError
not_found_error message = record { code = not_found; message = message }

abbrev pub internal_error {ℓ} : {E : Type ℓ} → E → ApiError
internal_error e = internal

pub record CreateOrderRequest : Type 0 where
  pub user_id : String
  pub amount : ℤ
  pub currency : String

pub record CreateOrderResponse : Type 0 where
  pub order_id : Uuid
  pub status : String

pub record InitiatePaymentRequest : Type 0 where
  pub order_id : Uuid
  pub payment_method : PaymentMethod

pub record InitiatePaymentResponse : Type 0 where
  pub payment_id : Uuid
  pub gateway : String
  pub checkout_url : String
  pub expires_at : ℕ

abbrev pub Handler : Type 0 → Type 0
Handler A = Session → Result ApiError A × Session

infixl 5 ◌>>=◌
abbrev ◌>>=◌ : {A B : Type 0} → Handler A → (A → Handler B) → Handler B
◌>>=◌ m f s = let (r, s') = m s in elim r [ ok a ↦ f a s' | err e ↦ (err e, s') ]

-- `.await.map_err(ApiError::internal)?` on a call of the repository.
abbrev in_db : {A : Type 0} → Action A → Handler A
in_db m s = let (r, s') = m s in (map_err internal_error r, s')

abbrev respond : {A : Type 0} → A → Handler A
respond a s = (ok a, s)

unfoldable pub create_order_handler : CreateOrderRequest → Handler CreateOrderResponse
create_order_handler req = do
  order_id ← in_db (create_order req.user_id req.amount req.currency)
  respond (record { order_id = order_id; status = "PENDING" })

-- The identifier that the gateway is given is drawn here, and `create_payment` draws another.
unfoldable pub initiate_payment :
    List PaymentGateway → InitiatePaymentRequest → Handler InitiatePaymentResponse
initiate_payment router req = do
  payment_id ← in_db new_v4
  session ← λ s. (
    map_err internal_error
        (pick_checkout router req.order_id payment_id req.payment_method s.clock),
    s,
  )
  created_payment_id ←
      in_db (create_payment req.order_id session.gateway req.payment_method session.checkout_url)
  respond (record {
    payment_id = created_payment_id;
    gateway = session.gateway;
    checkout_url = session.checkout_url;
    expires_at = session.expires_at;
  })

-- `SELECT id, status FROM orders WHERE id = $1`
unfoldable pub select_order : Uuid → List OrderRow → Option (Uuid × String)
select_order id [] = none
select_order id (o ∷ os) = if o.id == id then some (o.id, o.status) else select_order id os

abbrev found : Option (Uuid × String) → Handler (Uuid × String)
found none s = (err (not_found_error "order not found"), s)
found (some row) s = (ok row, s)

unfoldable pub get_order : Uuid → Handler (Uuid × String)
unfolding select_order
get_order order_id = do row ← in_db (fetch (λ t. select_order order_id t.orders)); found row

-- The state of `receive_webhook`: the queue, and the payloads sent on `ws_tx`, latest first.
pub record Hub (redis : Redis) : Type 0 where
  pub world : World redis
  pub ws_sent : List String

-- The event with the gateway of the path.
abbrev pub from_path : String → GatewayWebhookEvent → GatewayWebhookEvent
from_path gateway event = record event { gateway = gateway }

module _ (redis : Redis) (to_json : GatewayWebhookEvent → String) where
  unfoldable pub receive_webhook :
      String → GatewayWebhookEvent → Hub redis → Result ApiError StatusCode × Hub redis
  receive_webhook gateway event hub =
      let payload = to_json (from_path gateway event) in
      let (r, w) = enqueue redis "stream:webhooks" payload hub.world in
      elim r [
        | ok _ ↦ (ok accepted, record { world = w; ws_sent = payload ∷ hub.ws_sent })
        | err e ↦ (err internal, record hub { world = w })
      ]
