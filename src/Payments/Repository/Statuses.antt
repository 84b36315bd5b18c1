-- ===== src/Payments/Repository/Statuses.antt =====
-- The statuses that approach-1/crates/adapters/src/repository.rs writes, against the enums of
-- approach-1/crates/domain/src/models.rs.
use payment_processing.Common.{
  ℕ, String, ◌==◌, ◌≡◌, ◌⊎◌, inl, inr, refl, Bool-cases, any, List, [], ◌∷◌, map, All, Result, ok,
  err, arith,
}
use payment_processing.Payments.Models.{
  Uuid, OrderStatus, PaymentStatus, GatewayWebhookEvent, order_status_name, payment_status_name,
}
use payment_processing.Payments.Repository.{
  OrderRow, PaymentRow, TransactionRow, SettlementRow, Tables, Session, DbError,
}
use payment_processing.Payments.Repository.Statements.{
  insert_order, insert_payment, insert_transaction, insert_settlement, succeed, pay, same_order,
  same_payment, order_exists,
}
use payment_processing.Payments.Repository.Constraints.{Follows}
use payment_processing.Payments.Repository.History.{Call, IsKept, history, history-kept}

-- An order that is pending or paid, and a payment that is pending or successful.
abbrev pub IsOpenOrPaid : OrderRow → Type 0
IsOpenOrPaid o =
    (o.status ≡ order_status_name OrderStatus.pending)
    ⊎ (o.status ≡ order_status_name OrderStatus.paid)

abbrev pub IsOpenOrSuccess : PaymentRow → Type 0
IsOpenOrSuccess p =
    (p.status ≡ payment_status_name PaymentStatus.pending)
    ⊎ (p.status ≡ payment_status_name PaymentStatus.success)

pub record NoneFailed (t : Tables) : Type 0 where
  pub orders : All IsOpenOrPaid t.orders
  pub payments : All IsOpenOrSuccess t.payments

StaysUnfailed : Tables → Tables → Type 0
StaysUnfailed t u = NoneFailed t → NoneFailed u

pay-IsOpenOrPaid :
    (id : Uuid) (now : ℕ) (os : List OrderRow)
    → All IsOpenOrPaid os
    → All IsOpenOrPaid (map (pay id now) os)
pay-IsOpenOrPaid id now [] h = tt
pay-IsOpenOrPaid id now (o ∷ os) (h, hs) = (
  elim (Bool-cases (o.id == id)) [ inl e ↦ rw e (inr refl) | inr e ↦ rw e h ],
  pay-IsOpenOrPaid id now os hs,
)

succeed-IsOpenOrSuccess :
    (id : Uuid) (now : ℕ) (ps : List PaymentRow)
    → All IsOpenOrSuccess ps
    → All IsOpenOrSuccess (map (succeed id now) ps)
succeed-IsOpenOrSuccess id now [] h = tt
succeed-IsOpenOrSuccess id now (p ∷ ps) (h, hs) = (
  elim (Bool-cases (p.id == id)) [ inl e ↦ rw e (inr refl) | inr e ↦ rw e h ],
  succeed-IsOpenOrSuccess id now ps hs,
)

insert_order-Follows :
    (row : OrderRow) (t : Tables)
    → row.status ≡ "PENDING"
    → Follows StaysUnfailed t (insert_order row t)
unfolding insert_order StaysUnfailed
insert_order-Follows row t pending = elim (Bool-cases (any (same_order row) t.orders)) [
  | inl e ↦ rw e tt
  | inr e ↦ rw e (λ h. record { orders = (inl pending, h.orders); payments = h.payments })
]

insert_payment-Follows :
    (row : PaymentRow) (t : Tables)
    → row.status ≡ "PENDING"
    → Follows StaysUnfailed t (insert_payment row t)
unfolding insert_payment StaysUnfailed
insert_payment-Follows row t pending = elim (Bool-cases (any (same_payment row) t.payments)) [
  | inl e ↦ rw e tt
  | inr e ↦ elim (Bool-cases (order_exists t row.order_id)) [
    | inl k ↦ rw (e, k) (λ h. record { orders = h.orders; payments = (inl pending, h.payments) })
    | inr k ↦ rw (e, k) tt
  ]
]

-- A statement that touches neither orders nor payments.
frame-Follows :
    (t : Tables) (r : Result DbError Tables)
    → ((u : Tables) → r ≡ ok u → (u.orders ≡ t.orders) × (u.payments ≡ t.payments))
    → Follows StaysUnfailed t r
unfolding StaysUnfailed
frame-Follows t (err e) frame = tt
frame-Follows t (ok u) frame = λ h.
    let (orders, payments) = frame u refl in
    record { orders = rw orders h.orders; payments = rw payments h.payments }

insert_transaction-Follows :
    (row : TransactionRow) (t : Tables) → Follows StaysUnfailed t (insert_transaction row t)
unfolding insert_transaction
insert_transaction-Follows row t = frame-Follows t (insert_transaction row t) (λ u e. ground arith)

insert_settlement-Follows :
    (row : SettlementRow) (t : Tables) → Follows StaysUnfailed t (insert_settlement row t)
unfolding insert_settlement
insert_settlement-Follows row t = frame-Follows t (insert_settlement row t) (λ u e. ground arith)

StaysUnfailed-IsKept : IsKept StaysUnfailed
unfolding StaysUnfailed
StaysUnfailed-IsKept = record {
  self = λ t h. h;
  join = λ {t} {u} {v} f g h. g (f h);
  inserts_order = insert_order-Follows;
  inserts_payment = insert_payment-Follows;
  inserts_transaction = insert_transaction-Follows;
  inserts_settlement = insert_settlement-Follows;
  settles_payment = λ payment_id order_id now t h. record {
    orders = pay-IsOpenOrPaid order_id now t.orders h.orders;
    payments = succeed-IsOpenOrSuccess payment_id now t.payments h.payments;
  };
}

-- Over any history of calls, whatever events they are about and whatever the environment answers, if
-- each order is pending or paid and each payment pending or successful, so they are afterwards: no
-- order and no payment comes to have the status FAILED, which the enums of both have.
pub history-NoneFailed :
    (uuid_text : Uuid → String) (to_json : GatewayWebhookEvent → String) (cs : List Call)
    (s : Session)
    → NoneFailed s.tables
    → NoneFailed (history uuid_text to_json cs s).tables
unfolding StaysUnfailed
history-NoneFailed uuid_text to_json cs s = history-kept StaysUnfailed-IsKept uuid_text to_json cs s
