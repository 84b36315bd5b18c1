-- ===== src/Payments/Repository/Constraints.antt =====
-- The constraints of 0001_init.sql, and what no statement of repository.rs undoes.
use payment_processing.Common.{◌≡◌, Result, err, Bool, true, ◌&&◌, any, All, ok, ◌==◌}
use payment_processing.Common.Text.{◌==◌ as same_text}
use payment_processing.Payments.Models.{Uuid}
use payment_processing.Payments.Repository.Schema.{Tables}
use payment_processing.Payments.Repository.Connection.{DbError}
use payment_processing.Payments.Repository.Statements.{
  same_order, same_payment, same_transaction_id, same_event, same_gateway_txn, same_settlement_id,
  same_ref, order_exists, payment_exists,
}
use payment_processing.Payments.Repository.Keys.{Distinct}

-- Every primary key, unique key and foreign key of the schema.
pub record Constraints (t : Tables) : Type 0 where
  pub order_ids : Distinct same_order t.orders
  pub payment_ids : Distinct same_payment t.payments
  pub transaction_ids : Distinct same_transaction_id t.transactions
  pub events : Distinct same_event t.transactions
  pub gateway_txns : Distinct same_gateway_txn t.transactions
  pub settlement_ids : Distinct same_settlement_id t.settlements
  pub refs : Distinct same_ref t.settlements
  pub payment_orders : All (λ p. order_exists t p.order_id ≡ true) t.payments
  pub transaction_payments : All (λ x. payment_exists t x.payment_id ≡ true) t.transactions
  pub settlement_payments : All (λ x. payment_exists t x.payment_id ≡ true) t.settlements

abbrev pub is_paid : Tables → Uuid → Bool
is_paid t id = any (λ o. o.id == id && same_text o.status "PAID") t.orders

abbrev pub is_success : Tables → Uuid → Bool
is_success t id = any (λ p. p.id == id && same_text p.status "SUCCESS") t.payments

-- A change of the tables that keeps the constraints, and neither a paid order nor a successful
-- payment is lost.
pub record Lawful (t u : Tables) : Type 0 where
  pub keeps : Constraints t → Constraints u
  pub stays_paid : (id : Uuid) → is_paid t id ≡ true → is_paid u id ≡ true
  pub stays_success : (id : Uuid) → is_success t id ≡ true → is_success u id ≡ true

pub Lawful-refl : (t : Tables) → Lawful t t
Lawful-refl t = record { keeps = λ c. c; stays_paid = λ id h. h; stays_success = λ id h. h }

pub Lawful-trans : {t u v : Tables} → Lawful t u → Lawful u v → Lawful t v
Lawful-trans f g = record {
  keeps = λ c. g.keeps (f.keeps c);
  stays_paid = λ id h. g.stays_paid id (f.stays_paid id h);
  stays_success = λ id h. g.stays_success id (f.stays_success id h);
}

-- A statement that goes through changes the tables as the relation allows; one that fails leaves
-- them.
abbrev pub Follows : (Tables → Tables → Type 0) → Tables → Result DbError Tables → Type 0
Follows R t (ok u) = R t u
Follows R t (err e) = Unit
