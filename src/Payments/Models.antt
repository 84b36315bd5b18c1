-- ===== src/Payments/Models.antt =====
-- approach-1/crates/domain/src/models.rs: the domain's enums and the webhook event.
-- A `Uuid` is its 128-bit number, a `DateTime<Utc>` its count of seconds, an `i64` an integer.
use payment_processing.Common.{ℕ, String}

abbrev pub Uuid : Type 0
Uuid = ℕ

-- `negsuc n` is -(n + 1).
pub data ℤ : Type 0 where
  pos : ℕ → ℤ
  negsuc : ℕ → ℤ

pub data OrderStatus : Type 0 where
  pending paid failed : OrderStatus

pub data PaymentStatus : Type 0 where
  pending success failed : PaymentStatus

-- The names that `rename_all = "SCREAMING_SNAKE_CASE"` gives the statuses.
abbrev pub order_status_name : OrderStatus → String
order_status_name OrderStatus.pending = "PENDING"
order_status_name OrderStatus.paid = "PAID"
order_status_name OrderStatus.failed = "FAILED"

abbrev pub payment_status_name : PaymentStatus → String
payment_status_name PaymentStatus.pending = "PENDING"
payment_status_name PaymentStatus.success = "SUCCESS"
payment_status_name PaymentStatus.failed = "FAILED"

pub data PaymentMethod : Type 0 where
  upi card : PaymentMethod

-- The views of an order and of a payment, and the error, that the domain declares; the adapters work
-- on the rows of the tables.
pub record Order : Type 0 where
  pub id : Uuid
  pub user_id : String
  pub amount : ℤ
  pub currency : String
  pub status : OrderStatus
  pub created_at : ℕ

pub record Payment : Type 0 where
  pub id : Uuid
  pub order_id : Uuid
  pub gateway : String
  pub method : PaymentMethod
  pub checkout_url : String
  pub status : PaymentStatus
  pub created_at : ℕ

pub data DomainError : Type 0 where
  invalid_state_transition : DomainError

pub record GatewayWebhookEvent : Type 0 where
  pub event_id : String
  pub gateway : String
  pub order_id : Uuid
  pub payment_id : Uuid
  pub gateway_txn_id : String
  pub status : PaymentStatus
  pub amount : ℤ
  pub signature : String
  pub occurred_at : ℕ
