-- ===== src/Payments/Repository/Pending.antt =====
-- The query of `pending_payments`: which rows it selects, in which order, and how many.
use payment_processing.Common.{
  ℕ, zero, suc, ◌≤◌, ◌≡◌, true, List, [], ◌∷◌, select, take, length, length-take-le, All, arith,
  leb, Bool-cases, inl, inr,
}
use payment_processing.Payments.Repository.{PaymentRow, Tables}
use payment_processing.Payments.Repository.Statements.{
  is_pending, insert_by_created, order_by_created, select_pending_rows,
}
use payment_processing.Payments.Repository.Keys.{All-mono}

-- The rows stand in the order of their creation.
abbrev pub IsOrdered : List PaymentRow → Type 0
IsOrdered [] = Unit
IsOrdered (p ∷ ps) = All (λ q. p.created_at ≤ q.created_at) ps × IsOrdered ps

module _ (P : PaymentRow → Type 0) where
  All-insert_by_created :
      (p : PaymentRow) (ps : List PaymentRow) → P p → All P ps → All P (insert_by_created p ps)
  unfolding insert_by_created
  All-insert_by_created p [] h hs = (h, hs)
  All-insert_by_created p (q ∷ qs) h hs = ground (arith, All-insert_by_created p qs h hs.1)

  pub All-order_by_created : (ps : List PaymentRow) → All P ps → All P (order_by_created ps)
  unfolding order_by_created
  All-order_by_created [] hs = hs
  All-order_by_created (p ∷ ps) hs =
      All-insert_by_created p (order_by_created ps) hs.0 (All-order_by_created ps hs.1)

  pub All-take : (n : ℕ) (ps : List PaymentRow) → All P ps → All P (take n ps)
  All-take zero ps hs = tt
  All-take (suc n) [] hs = tt
  All-take (suc n) (p ∷ ps) hs = (hs.0, All-take n ps hs.1)

insert_by_created-IsOrdered :
    (p : PaymentRow) (ps : List PaymentRow) → IsOrdered ps → IsOrdered (insert_by_created p ps)
unfolding insert_by_created
insert_by_created-IsOrdered p [] h = (tt, tt)
insert_by_created-IsOrdered p (q ∷ qs) h = elim (Bool-cases (leb p.created_at q.created_at)) [
  | inl e ↦ rw e ((ground arith, All-mono _ _ qs (λ r k. ground arith) h.0), h)
  | inr e ↦ rw e (
    All-insert_by_created (λ r. q.created_at ≤ r.created_at) p qs (ground arith) h.0,
    insert_by_created-IsOrdered p qs h.1,
  )
]

order_by_created-IsOrdered : (ps : List PaymentRow) → IsOrdered (order_by_created ps)
unfolding order_by_created
order_by_created-IsOrdered [] = tt
order_by_created-IsOrdered (p ∷ ps) =
    insert_by_created-IsOrdered p (order_by_created ps) (order_by_created-IsOrdered ps)

take-IsOrdered : (n : ℕ) (ps : List PaymentRow) → IsOrdered ps → IsOrdered (take n ps)
take-IsOrdered zero ps h = tt
take-IsOrdered (suc n) [] h = tt
take-IsOrdered (suc n) (p ∷ ps) h = (All-take _ n ps h.0, take-IsOrdered n ps h.1)

All-select_pending : (ps : List PaymentRow) → All (λ p. is_pending p ≡ true) (select is_pending ps)
All-select_pending [] = tt
All-select_pending (p ∷ ps) = ground (arith, All-select_pending ps)

-- The query returns pending rows alone, the oldest first, and at most a hundred of them.
pub select_pending_rows_lem :
    (t : Tables)
    → let rows = select_pending_rows t in
      All (λ p. is_pending p ≡ true) rows × IsOrdered rows × (length rows ≤ 100)
unfolding select_pending_rows
select_pending_rows_lem t = (
  All-take _ 100 (order_by_created (select is_pending t.payments))
      (All-order_by_created _ (select is_pending t.payments) (All-select_pending t.payments)),
  take-IsOrdered 100 (order_by_created (select is_pending t.payments))
      (order_by_created-IsOrdered (select is_pending t.payments)),
  length-take-le 100 (order_by_created (select is_pending t.payments)),
)
