-- ===== src/Payments/Repository/Coverage.antt =====
-- Which payments the query of `pending_payments` finds.
use payment_processing.Common.{
  ℕ, zero, suc, ◌≤◌, ◌≡◌, refl, ◌∙◌, ap, Bool, true, false, ◌&&◌, ◌||◌, List, [], ◌∷◌, map, any,
  select, take, length, take_all, All, arith, ◌==◌,
}
use payment_processing.Payments.Models.{Uuid}
use payment_processing.Payments.Repository.{PaymentRow, Tables}
use payment_processing.Payments.Repository.Statements.{
  is_pending, insert_by_created, order_by_created, columns, select_pending, select_pending_rows,
  payment_exists,
}
use payment_processing.Payments.Repository.Pending.{All-take, All-order_by_created}

module _ (q : PaymentRow → Bool) where
  any-insert_by_created :
      (p : PaymentRow) (ps : List PaymentRow) → any q (insert_by_created p ps) ≡ (q p || any q ps)
  unfolding insert_by_created
  any-insert_by_created p [] = refl
  any-insert_by_created p (r ∷ rs) = ground (arith, any-insert_by_created p rs)

  any-order_by_created : (ps : List PaymentRow) → any q (order_by_created ps) ≡ any q ps
  unfolding order_by_created
  any-order_by_created [] = refl
  any-order_by_created (p ∷ ps) =
      ground (arith, any-insert_by_created p (order_by_created ps), any-order_by_created ps)

  any-select_pending :
      (ps : List PaymentRow) → any q (select is_pending ps) ≡ any (λ p. is_pending p && q p) ps
  any-select_pending [] = refl
  any-select_pending (p ∷ ps) = ground (arith, any-select_pending ps)

  any-take : (n : ℕ) (ps : List PaymentRow) → any q (take n ps) ≡ true → any q ps ≡ true
  any-take zero ps h = ground arith
  any-take (suc n) [] h = ground arith
  any-take (suc n) (p ∷ ps) h = ground (arith, any-take n ps)

any-take_none :
    (q : PaymentRow → Bool) (n : ℕ) (ps : List PaymentRow)
    → any q ps ≡ false
    → any q (take n ps) ≡ false
any-take_none q n ps h = ground (arith, any-take q n ps)

length-insert_by_created :
    (p : PaymentRow) (ps : List PaymentRow) → length (insert_by_created p ps) ≡ suc (length ps)
unfolding insert_by_created
length-insert_by_created p [] = refl
length-insert_by_created p (q ∷ qs) = ground (arith, length-insert_by_created p qs)

pub length-order_by_created : (ps : List PaymentRow) → length (order_by_created ps) ≡ length ps
unfolding order_by_created
length-order_by_created [] = refl
length-order_by_created (p ∷ ps) =
    omega (arith, length-insert_by_created p (order_by_created ps), length-order_by_created ps)

pub any-columns :
    (id : Uuid) (ps : List PaymentRow)
    → any (λ x. x.0 == id) (map columns ps) ≡ any (λ p. p.id == id) ps
any-columns id [] = refl
any-columns id (p ∷ ps) = ground (arith, any-columns id ps)

abbrev pub pending_rows : Tables → List PaymentRow
pending_rows t = select is_pending t.payments

-- While at most a hundred payments are pending, the query lists each of them.
pub any-select_pending_all :
    (id : Uuid) (t : Tables)
    → length (pending_rows t) ≤ 100
    → any (λ x. x.0 == id) (select_pending t) ≡ any (λ p. is_pending p && (p.id == id)) t.payments
unfolding select_pending select_pending_rows
any-select_pending_all id t few =
    any-columns id (take 100 (order_by_created (pending_rows t)))
    ∙ ap (any (λ p. p.id == id)) (
        take_all 100 (order_by_created (pending_rows t))
          (omega (arith, length-order_by_created (pending_rows t))))
    ∙ any-order_by_created (λ p. p.id == id) (pending_rows t)
    ∙ any-select_pending (λ p. p.id == id) t.payments

-- However many payments are pending, the query lists no other.
pub any-select_pending_only :
    (id : Uuid) (t : Tables)
    → any (λ p. is_pending p && (p.id == id)) t.payments ≡ false
    → any (λ x. x.0 == id) (select_pending t) ≡ false
unfolding select_pending select_pending_rows
any-select_pending_only id t none =
    any-columns id (take 100 (order_by_created (pending_rows t)))
    ∙ any-take_none (λ p. p.id == id) 100 (order_by_created (pending_rows t))
        (any-order_by_created (λ p. p.id == id) (pending_rows t)
          ∙ any-select_pending (λ p. p.id == id) t.payments
          ∙ none)

-- Every payment that the query lists is on record.
module _ (t : Tables) where
  abbrev Known : PaymentRow → Type 0
  Known p = payment_exists t p.id ≡ true

  Known-payments :
      (ps : List PaymentRow)
      → ((id : Uuid) → any (λ p. p.id == id) ps ≡ true → payment_exists t id ≡ true)
      → All Known ps
  Known-payments [] h = tt
  Known-payments (p ∷ ps) h =
      (h p.id (ground arith), Known-payments ps (λ id e. h id (ground arith)))

  All-columns :
      (ps : List PaymentRow)
      → All Known ps
      → All (λ x. payment_exists t x.0 ≡ true) (map columns ps)
  All-columns [] h = tt
  All-columns (p ∷ ps) h = (h.0, All-columns ps h.1)

  All-select : (ps : List PaymentRow) → All Known ps → All Known (select is_pending ps)
  All-select [] h = tt
  All-select (p ∷ ps) h = ground (arith, All-select ps h.1)

  pub select_pending_known : All (λ x. payment_exists t x.0 ≡ true) (select_pending t)
  unfolding select_pending select_pending_rows
  select_pending_known = All-columns _ (
      All-take Known 100 (order_by_created (pending_rows t)) (
        All-order_by_created Known (pending_rows t)
          (All-select t.payments (Known-payments t.payments (λ id e. e)))))
