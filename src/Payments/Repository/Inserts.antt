-- ===== src/Payments/Repository/Inserts.antt =====
-- The four inserts keep the constraints and what is settled.
use payment_processing.Common.{◌≡◌, ◌∷◌, true, false, any, arith, Bool-cases, inl, inr}
use payment_processing.Payments.Repository.Schema.{
  OrderRow, PaymentRow, TransactionRow, SettlementRow, Tables,
}
use payment_processing.Payments.Repository.Statements.{
  same_order, same_payment, same_transaction_id, same_event, same_gateway_txn, same_settlement_id,
  same_ref, order_exists, payment_exists, insert_order, insert_payment, insert_transaction,
  insert_settlement,
}
use payment_processing.Payments.Repository.Keys.{All-mono}
use payment_processing.Payments.Repository.Constraints.{Constraints, Lawful, Lawful-refl, Follows}

insert_order-keeps :
    (row : OrderRow) (t : Tables)
    → any (same_order row) t.orders ≡ false
    → Constraints t
    → Constraints (record t { orders = row ∷ t.orders })
insert_order-keeps row t new c = record {
  order_ids = (new, c.order_ids);
  payment_ids = c.payment_ids;
  transaction_ids = c.transaction_ids;
  events = c.events;
  gateway_txns = c.gateway_txns;
  settlement_ids = c.settlement_ids;
  refs = c.refs;
  payment_orders = All-mono _ _ t.payments (λ p h. ground arith) c.payment_orders;
  transaction_payments = c.transaction_payments;
  settlement_payments = c.settlement_payments;
}

pub insert_order-Follows : (row : OrderRow) (t : Tables) → Follows Lawful t (insert_order row t)
unfolding insert_order
insert_order-Follows row t = elim (Bool-cases (any (same_order row) t.orders)) [
  | inl e ↦ rw e tt
  | inr e ↦ rw e (record {
    keeps = insert_order-keeps row t e;
    stays_paid = λ id h. ground arith;
    stays_success = λ id h. h;
  })
]

insert_payment-keeps :
    (row : PaymentRow) (t : Tables)
    → any (same_payment row) t.payments ≡ false
    → order_exists t row.order_id ≡ true
    → Constraints t
    → Constraints (record t { payments = row ∷ t.payments })
insert_payment-keeps row t new known c = record {
  order_ids = c.order_ids;
  payment_ids = (new, c.payment_ids);
  transaction_ids = c.transaction_ids;
  events = c.events;
  gateway_txns = c.gateway_txns;
  settlement_ids = c.settlement_ids;
  refs = c.refs;
  payment_orders = (known, c.payment_orders);
  transaction_payments = All-mono _ _ t.transactions (λ x h. ground arith) c.transaction_payments;
  settlement_payments = All-mono _ _ t.settlements (λ x h. ground arith) c.settlement_payments;
}

pub insert_payment-Follows :
    (row : PaymentRow) (t : Tables) → Follows Lawful t (insert_payment row t)
unfolding insert_payment
insert_payment-Follows row t = elim (Bool-cases (any (same_payment row) t.payments)) [
  | inl e ↦ rw e tt
  | inr e ↦ elim (Bool-cases (order_exists t row.order_id)) [
    | inl known ↦
        rw (e, known)
          (record {
            keeps = insert_payment-keeps row t e known;
            stays_paid = λ id h. h;
            stays_success = λ id h. ground arith;
          })
    | inr unknown ↦ rw (e, unknown) tt
  ]
]

insert_transaction-keeps :
    (row : TransactionRow) (t : Tables)
    → any (same_event row) t.transactions ≡ false
    → any (same_transaction_id row) t.transactions ≡ false
    → any (same_gateway_txn row) t.transactions ≡ false
    → payment_exists t row.payment_id ≡ true
    → Constraints t
    → Constraints (record t { transactions = row ∷ t.transactions })
insert_transaction-keeps row t e₀ e₁ e₂ known c = record {
  order_ids = c.order_ids;
  payment_ids = c.payment_ids;
  transaction_ids = (e₁, c.transaction_ids);
  events = (e₀, c.events);
  gateway_txns = (e₂, c.gateway_txns);
  settlement_ids = c.settlement_ids;
  refs = c.refs;
  payment_orders = c.payment_orders;
  transaction_payments = (known, c.transaction_payments);
  settlement_payments = c.settlement_payments;
}

pub insert_transaction-Follows :
    (row : TransactionRow) (t : Tables) → Follows Lawful t (insert_transaction row t)
unfolding insert_transaction
insert_transaction-Follows row t = elim (Bool-cases (any (same_event row) t.transactions)) [
  | inl e ↦ rw e (Lawful-refl t)
  | inr e₀ ↦ elim (Bool-cases (any (same_transaction_id row) t.transactions)) [
    | inl e ↦ rw (e₀, e) tt
    | inr e₁ ↦ elim (Bool-cases (any (same_gateway_txn row) t.transactions)) [
      | inl e ↦ rw (e₀, e₁, e) tt
      | inr e₂ ↦ elim (Bool-cases (payment_exists t row.payment_id)) [
        | inr unknown ↦ rw (e₀, e₁, e₂, unknown) tt
        | inl known ↦
            rw (e₀, e₁, e₂, known)
              (record {
                keeps = insert_transaction-keeps row t e₀ e₁ e₂ known;
                stays_paid = λ id h. h;
                stays_success = λ id h. h;
              })
      ]
    ]
  ]
]

insert_settlement-keeps :
    (row : SettlementRow) (t : Tables)
    → any (same_settlement_id row) t.settlements ≡ false
    → any (same_ref row) t.settlements ≡ false
    → payment_exists t row.payment_id ≡ true
    → Constraints t
    → Constraints (record t { settlements = row ∷ t.settlements })
insert_settlement-keeps row t e₀ e₁ known c = record {
  order_ids = c.order_ids;
  payment_ids = c.payment_ids;
  transaction_ids = c.transaction_ids;
  events = c.events;
  gateway_txns = c.gateway_txns;
  settlement_ids = (e₀, c.settlement_ids);
  refs = (e₁, c.refs);
  payment_orders = c.payment_orders;
  transaction_payments = c.transaction_payments;
  settlement_payments = (known, c.settlement_payments);
}

pub insert_settlement-Follows :
    (row : SettlementRow) (t : Tables) → Follows Lawful t (insert_settlement row t)
unfolding insert_settlement
insert_settlement-Follows row t = elim (Bool-cases (any (same_settlement_id row) t.settlements)) [
  | inl e ↦ rw e (Lawful-refl t)
  | inr e₀ ↦ elim (Bool-cases (any (same_ref row) t.settlements)) [
    | inl e ↦ rw (e₀, e) (Lawful-refl t)
    | inr e₁ ↦ elim (Bool-cases (payment_exists t row.payment_id)) [
      | inr unknown ↦ rw (e₀, e₁, unknown) tt
      | inl known ↦
          rw (e₀, e₁, known)
            (record {
              keeps = insert_settlement-keeps row t e₀ e₁ known;
              stays_paid = λ id h. h;
              stays_success = λ id h. h;
            })
    ]
  ]
]
