-- ===== src/Payments/Repository/Updates.antt =====
-- The two updates of `mark_payment_success` keep the constraints and what is settled.
use payment_processing.Common.{ℕ, ◌≡◌, ◌∙◌, map, true, ◌&&◌, arith, ◌==◌, Bool-cases, inl, inr}
use payment_processing.Common.Text.{◌==◌ as same_text}
use payment_processing.Payments.Models.{Uuid}
use payment_processing.Payments.Repository.Schema.{OrderRow, PaymentRow, Tables}
use payment_processing.Payments.Repository.Statements.{
  same_order, same_payment, order_exists, payment_exists, set_payment_success, set_order_paid,
  succeed, pay,
}
use payment_processing.Payments.Repository.Keys.{
  any-map_same, any_mono, Distinct-map, All-mono, All-map,
}
use payment_processing.Payments.Repository.Constraints.{Constraints, Lawful, Follows}

pub payment_exists-succeed :
    (id : Uuid) (now : ℕ) (t : Tables) (x : Uuid)
    → payment_exists (record t { payments = map (succeed id now) t.payments }) x
      ≡ payment_exists t x
payment_exists-succeed id now t x = any-map_same _ _ t.payments (λ p. ground arith)

order_exists-pay :
    (id : Uuid) (now : ℕ) (t : Tables) (x : Uuid)
    → order_exists (record t { orders = map (pay id now) t.orders }) x ≡ order_exists t x
order_exists-pay id now t x = any-map_same _ _ t.orders (λ o. ground arith)

succeed-stays :
    (id : Uuid) (now : ℕ) (x : Uuid) (p : PaymentRow)
    → (p.id == x && same_text p.status "SUCCESS") ≡ true
    → ((succeed id now p).id == x && same_text (succeed id now p).status "SUCCESS") ≡ true
succeed-stays id now x p h = elim (Bool-cases (p.id == id)) [
  | inl e ↦ rw e (ground arith)
  | inr e ↦ rw e h
]

pay-stays :
    (id : Uuid) (now : ℕ) (x : Uuid) (o : OrderRow)
    → (o.id == x && same_text o.status "PAID") ≡ true
    → ((pay id now o).id == x && same_text (pay id now o).status "PAID") ≡ true
pay-stays id now x o h = elim (Bool-cases (o.id == id)) [
  | inl e ↦ rw e (ground arith)
  | inr e ↦ rw e h
]

module _ (id : Uuid) (now : ℕ) (t : Tables) where
  set_payment_success-keeps :
      Constraints t → Constraints (record t { payments = map (succeed id now) t.payments })
  set_payment_success-keeps c = record {
    order_ids = c.order_ids;
    payment_ids = Distinct-map same_payment _ t.payments (λ p q. ground arith) c.payment_ids;
    transaction_ids = c.transaction_ids;
    events = c.events;
    gateway_txns = c.gateway_txns;
    settlement_ids = c.settlement_ids;
    refs = c.refs;
    payment_orders =
        All-map (λ p. order_exists t p.order_id ≡ true) _ _ t.payments (λ p h. ground arith)
          c.payment_orders;
    transaction_payments =
        All-mono _ _ t.transactions (λ x h. payment_exists-succeed id now t x.payment_id ∙ h)
          c.transaction_payments;
    settlement_payments =
        All-mono _ _ t.settlements (λ x h. payment_exists-succeed id now t x.payment_id ∙ h)
          c.settlement_payments;
  }

  pub set_payment_success-Follows : Follows Lawful t (set_payment_success id now t)
  unfolding set_payment_success
  set_payment_success-Follows = record {
    keeps = set_payment_success-keeps;
    stays_paid = λ x h. h;
    stays_success = λ x h. any_mono _ _ _ t.payments (succeed-stays id now x) h;
  }

  set_order_paid-keeps :
      Constraints t → Constraints (record t { orders = map (pay id now) t.orders })
  set_order_paid-keeps c = record {
    order_ids = Distinct-map same_order _ t.orders (λ p q. ground arith) c.order_ids;
    payment_ids = c.payment_ids;
    transaction_ids = c.transaction_ids;
    events = c.events;
    gateway_txns = c.gateway_txns;
    settlement_ids = c.settlement_ids;
    refs = c.refs;
    payment_orders =
        All-mono _ _ t.payments (λ p h. order_exists-pay id now t p.order_id ∙ h) c.payment_orders;
    transaction_payments = c.transaction_payments;
    settlement_payments = c.settlement_payments;
  }

  pub set_order_paid-Follows : Follows Lawful t (set_order_paid id now t)
  unfolding set_order_paid
  set_order_paid-Follows = record {
    keeps = set_order_paid-keeps;
    stays_paid = λ x h. any_mono _ _ _ t.orders (pay-stays id now x) h;
    stays_success = λ x h. h;
  }
