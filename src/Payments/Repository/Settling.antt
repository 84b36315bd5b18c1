-- ===== src/Payments/Repository/Settling.antt =====
-- `mark_payment_success`: one transaction over two tables.
use payment_processing.Common.{ℕ, ◌≡◌, ◌≢◌, ◌⊎◌, map, true, [], ok, arith}
use payment_processing.Payments.Models.{Uuid}
use payment_processing.Payments.Repository.{
  Tables, Session, begin, execute_in, commit, execute, fetch, mark_payment_success,
}
use payment_processing.Payments.Repository.Statements.{
  succeed, pay, set_payment_success, set_order_paid, order_exists, payment_exists,
}
use payment_processing.Payments.Repository.Constraints.{is_paid, is_success}
use payment_processing.Payments.Repository.Keys.{any_mono}

-- The tables with the payment marked and the order paid.
abbrev pub settled : Uuid → Uuid → ℕ → Tables → Tables
settled payment_id order_id now t = record t {
  payments = map (succeed payment_id now) t.payments;
  orders = map (pay order_id now) t.orders;
}

-- Whatever becomes of each round trip, either both updates take place or neither does, and the
-- call reports success only if both did.
pub mark_payment_success_atomic :
    (payment_id order_id : Uuid) (s : Session)
    → let (r, s') = mark_payment_success payment_id order_id s in
      ((r ≢ ok tt) × (s'.tables ≡ s.tables))
      ⊎ (s'.tables ≡ settled payment_id order_id s.clock s.tables)
unfolding mark_payment_success begin execute_in commit execute fetch set_payment_success
    set_order_paid
mark_payment_success_atomic payment_id order_id s = ground arith

module _ (payment_id order_id : Uuid) (now : ℕ) (t : Tables) where
  pub settled-is_success :
      payment_exists t payment_id ≡ true
      → is_success (settled payment_id order_id now t) payment_id ≡ true
  settled-is_success h = any_mono _ _ _ t.payments (λ p e. rw e (ground arith)) h

  pub settled-is_paid :
      order_exists t order_id ≡ true → is_paid (settled payment_id order_id now t) order_id ≡ true
  settled-is_paid h = any_mono _ _ _ t.orders (λ o e. rw e (ground arith)) h

-- With every round trip served the call succeeds and both updates take place.
pub mark_payment_success_served :
    (payment_id order_id : Uuid) (s : Session)
    → s.outcomes ≡ []
    → mark_payment_success payment_id order_id s
      ≡ (ok tt, record s { tables = settled payment_id order_id s.clock s.tables })
unfolding mark_payment_success begin execute_in commit execute fetch set_payment_success
    set_order_paid
mark_payment_success_served payment_id order_id s h = ground arith
