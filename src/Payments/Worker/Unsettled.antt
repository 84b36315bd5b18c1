-- ===== src/Payments/Worker/Unsettled.antt =====
-- `reconcile_once` of approach-1/apps/worker/src/main.rs when the connection fails between the two
-- writes of a payment.
use payment_processing.Common.{
  ℕ, String, ◌≡◌, refl, false, ◌&&◌, List, [], ◌∷◌, map, any, err, arith, ◌==◌, Bool-cases, inl,
  inr,
}
use payment_processing.Payments.Models.{Uuid}
use payment_processing.Payments.Redis.{Redis}
use payment_processing.Payments.Repository.{
  PaymentRow, Outcome, served, refused, connection, execute, insert_settlement_for,
  pending_payments, fetch, mark_payment_success, begin, execute_in, commit,
}
use payment_processing.Payments.Repository.Statements.{
  succeed, is_pending, select_pending, set_payment_success, set_order_paid,
}
use payment_processing.Payments.Repository.Settling.{settled}
use payment_processing.Payments.Repository.Coverage.{any-select_pending_only}
use payment_processing.Payments.Worker.{World, database, reconcile_all, reconcile_once}

not_pending_of :
    (id : Uuid) (now : ℕ) (p : PaymentRow)
    → (is_pending (succeed id now p) && ((succeed id now p).id == id)) ≡ false
not_pending_of id now p = elim (Bool-cases (p.id == id)) [
  | inl e ↦ rw e refl
  | inr e ↦ rw e (ground arith)
]

none_pending_of :
    (id : Uuid) (now : ℕ) (ps : List PaymentRow)
    → any (λ p. is_pending p && (p.id == id)) (map (succeed id now) ps) ≡ false
none_pending_of id now [] = refl
none_pending_of id now (p ∷ ps) = ground (arith, not_pending_of id now p, none_pending_of id now ps)

module _ (redis : Redis) (uuid_text : Uuid → String) where
  -- When the write of the first settlement fails, `reconcile_once` fails with its payment and order
  -- marked and no settlement added, and the payment is no longer among those that a later call looks
  -- for.
  pub reconcile_once_unsettled :
      (payment_id order_id : Uuid) (gateway : String) (rest : List (Uuid × Uuid × String))
      (os : List Outcome) (w : World redis)
      → select_pending w.db.tables ≡ (payment_id, order_id, gateway) ∷ rest
      → w.db.outcomes ≡ served ∷ served ∷ served ∷ served ∷ served ∷ refused ∷ os
      → let (r, w') = reconcile_once redis uuid_text w in
        (r ≡ err (database connection))
        × (w'.db.tables ≡ settled payment_id order_id w.db.clock w.db.tables)
        × (any (λ x. x.0 == payment_id) (select_pending w'.db.tables) ≡ false)
  unfolding reconcile_once reconcile_all pending_payments fetch mark_payment_success begin
      execute_in commit execute set_payment_success set_order_paid insert_settlement_for
  reconcile_once_unsettled payment_id order_id gateway rest os w listed answers =
      let after = settled payment_id order_id w.db.clock w.db.tables in
      let gone : any (λ x. x.0 == payment_id) (select_pending after) ≡ false =
        any-select_pending_only payment_id after
          (none_pending_of payment_id w.db.clock w.db.tables.payments) in
      ground (arith, gone)
