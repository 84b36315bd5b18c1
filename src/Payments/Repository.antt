-- ===== src/Payments/Repository.antt =====
-- approach-1/crates/adapters/src/repository.rs: the methods of `Repository`, each a `do` block of
-- the statements that it executes.
mod Schema
mod Connection
pub mod Statements
pub mod Keys
pub mod Constraints
pub mod Inserts
pub mod Updates
pub mod Settling
pub mod History
pub mod Statuses
pub mod Pending
pub mod Coverage
pub use Schema.*
unfoldable pub use Connection.*
use payment_processing.Common.{ℕ, String, List, [], ◌∷◌, map, Bool, if◌then◌else◌}
use payment_processing.Common.Text.{◌++◌}
use payment_processing.Payments.Models.{
  Uuid, ℤ, pos, PaymentMethod, PaymentStatus, GatewayWebhookEvent,
}
use Statements.{
  insert_order, insert_payment, set_payment_success, set_order_paid, insert_transaction,
  select_pending, insert_settlement,
}

unfoldable pub create_order : String → ℤ → String → Action Uuid
create_order user_id amount currency = do
  order_id ← new_v4
  now ← current_time
  execute (
      insert_order (record {
        id = order_id;
        user_id = user_id;
        amount = amount;
        currency = currency;
        status = "PENDING";
        created_at = now;
        updated_at = now;
      }))
  pure order_id

abbrev method_str : PaymentMethod → String
method_str PaymentMethod.upi = "UPI"
method_str PaymentMethod.card = "CARD"

unfoldable pub create_payment : Uuid → String → PaymentMethod → String → Action Uuid
create_payment order_id gateway method checkout_url = do
  payment_id ← new_v4
  now ← current_time
  execute (
      insert_payment (record {
        id = payment_id;
        order_id = order_id;
        gateway = gateway;
        method = method_str method;
        checkout_url = checkout_url;
        status = "PENDING";
        created_at = now;
        updated_at = now;
      }))
  pure payment_id

-- Both updates run on the transaction's own copy of the tables, which `commit` installs.
unfoldable pub mark_payment_success : Uuid → Uuid → Action (Unit {0})
mark_payment_success payment_id order_id = do
  now ← current_time
  t₀ ← begin
  t₁ ← execute_in (set_payment_success payment_id now) t₀
  t₂ ← execute_in (set_order_paid order_id now) t₁
  commit t₂

abbrev status_str : PaymentStatus → String
status_str PaymentStatus.pending = "PENDING"
status_str PaymentStatus.success = "SUCCESS"
status_str PaymentStatus.failed = "FAILED"

-- `raw_payload` is the event as `serde_json::to_string` prints it.
unfoldable pub log_transaction :
    (GatewayWebhookEvent → String) → GatewayWebhookEvent → Action (Unit {0})
log_transaction to_json event = do
  id ← new_v4
  now ← current_time
  execute (
      insert_transaction (record {
        id = id;
        payment_id = event.payment_id;
        gateway = event.gateway;
        gateway_txn_id = event.gateway_txn_id;
        webhook_event_id = event.event_id;
        status = status_str event.status;
        raw_payload = to_json event;
        created_at = now;
      }))

unfoldable pub pending_payments : Action (List (Uuid × Uuid × String))
pending_payments = fetch select_pending

unfoldable pub insert_settlement_for : (Uuid → String) → Uuid → String → ℤ → Action (Unit {0})
insert_settlement_for uuid_text payment_id gateway amount = do
  id ← new_v4
  now ← current_time
  execute (
      insert_settlement (record {
        id = id;
        payment_id = payment_id;
        gateway = gateway;
        settlement_ref = "settle-" ++ uuid_text payment_id;
        amount = amount;
        status = "MATCHED";
        created_at = now;
      }))
