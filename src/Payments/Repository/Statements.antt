-- ===== src/Payments/Repository/Statements.antt =====
-- The SQL text of repository.rs over the constraints of 0001_init.sql: a statement gives the new
-- tables or the constraint that it violates.
use payment_processing.Common.{
  ℕ, String, Bool, ◌&&◌, ◌||◌, List, [], ◌∷◌, map, ◌==◌, if◌then◌else◌, leb, ok, err, any, select,
  take,
}
use payment_processing.Common.Text.{◌==◌ as same_text}
use payment_processing.Payments.Models.{Uuid}
use payment_processing.Payments.Repository.Schema.{
  OrderRow, PaymentRow, TransactionRow, SettlementRow, Tables,
}
use payment_processing.Payments.Repository.Connection.{
  Statement, unique_violation, foreign_key_violation,
}

-- Equality of two rows at a unique key.
abbrev pub same_order : OrderRow → OrderRow → Bool
same_order a b = a.id == b.id

abbrev pub same_payment : PaymentRow → PaymentRow → Bool
same_payment a b = a.id == b.id

abbrev pub same_transaction_id : TransactionRow → TransactionRow → Bool
same_transaction_id a b = a.id == b.id

abbrev pub same_event : TransactionRow → TransactionRow → Bool
same_event a b = same_text a.gateway b.gateway && same_text a.webhook_event_id b.webhook_event_id

abbrev pub same_gateway_txn : TransactionRow → TransactionRow → Bool
same_gateway_txn a b = same_text a.gateway b.gateway && same_text a.gateway_txn_id b.gateway_txn_id

abbrev pub same_settlement_id : SettlementRow → SettlementRow → Bool
same_settlement_id a b = a.id == b.id

abbrev pub same_ref : SettlementRow → SettlementRow → Bool
same_ref a b = same_text a.settlement_ref b.settlement_ref

-- `REFERENCES orders(id)` and `REFERENCES payments(id)`
abbrev pub order_exists : Tables → Uuid → Bool
order_exists t id = any (λ o. o.id == id) t.orders

abbrev pub payment_exists : Tables → Uuid → Bool
payment_exists t id = any (λ p. p.id == id) t.payments

unfoldable pub insert_order : OrderRow → Statement
insert_order row t =
    if any (same_order row) t.orders
    then err unique_violation
    else ok (record t { orders = row ∷ t.orders })

unfoldable pub insert_payment : PaymentRow → Statement
insert_payment row t =
    if any (same_payment row) t.payments
    then err unique_violation
    else if order_exists t row.order_id
    then ok (record t { payments = row ∷ t.payments })
    else err foreign_key_violation

-- `ON CONFLICT (gateway, webhook_event_id) DO NOTHING`: the other two keys still raise.
unfoldable pub insert_transaction : TransactionRow → Statement
insert_transaction row t =
    if any (same_event row) t.transactions
    then ok t
    else if any (same_transaction_id row) t.transactions
        || any (same_gateway_txn row) t.transactions
    then err unique_violation
    else if payment_exists t row.payment_id
    then ok (record t { transactions = row ∷ t.transactions })
    else err foreign_key_violation

-- `ON CONFLICT DO NOTHING`: a conflict at any key.
unfoldable pub insert_settlement : SettlementRow → Statement
insert_settlement row t =
    if any (same_settlement_id row) t.settlements || any (same_ref row) t.settlements
    then ok t
    else if payment_exists t row.payment_id
    then ok (record t { settlements = row ∷ t.settlements })
    else err foreign_key_violation

abbrev pub succeed : Uuid → ℕ → PaymentRow → PaymentRow
succeed id now p = if p.id == id then record p { status = "SUCCESS"; updated_at = now } else p

unfoldable pub set_payment_success : Uuid → ℕ → Statement
set_payment_success id now t = ok (record t { payments = map (succeed id now) t.payments })

abbrev pub pay : Uuid → ℕ → OrderRow → OrderRow
pay id now o = if o.id == id then record o { status = "PAID"; updated_at = now } else o

unfoldable pub set_order_paid : Uuid → ℕ → Statement
set_order_paid id now t = ok (record t { orders = map (pay id now) t.orders })

abbrev pub is_pending : PaymentRow → Bool
is_pending p = same_text p.status "PENDING"

-- `ORDER BY created_at ASC`; rows of one time stand in the table's order.
unfoldable pub insert_by_created : PaymentRow → List PaymentRow → List PaymentRow
insert_by_created p [] = p ∷ []
insert_by_created p (q ∷ qs) =
    if leb p.created_at q.created_at then p ∷ q ∷ qs else q ∷ insert_by_created p qs

unfoldable pub order_by_created : List PaymentRow → List PaymentRow
order_by_created [] = []
order_by_created (p ∷ ps) = insert_by_created p (order_by_created ps)

abbrev pub columns : PaymentRow → Uuid × Uuid × String
columns p = (p.id, p.order_id, p.gateway)

unfoldable pub select_pending_rows : Tables → List PaymentRow
unfolding insert_by_created order_by_created
select_pending_rows t = take 100 (order_by_created (select is_pending t.payments))

unfoldable pub select_pending : Tables → List (Uuid × Uuid × String)
unfolding select_pending_rows
select_pending t = map columns (select_pending_rows t)
