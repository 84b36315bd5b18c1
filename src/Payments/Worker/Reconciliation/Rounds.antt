-- ===== src/Payments/Worker/Reconciliation/Rounds.antt =====
-- `run_reconciliation` of approach-1/apps/worker/src/main.rs: rounds enough clear any backlog, though
-- one query lists at most a hundred payments.
use payment_processing.Common.{
  ℕ, zero, suc, String, ◌+◌, ◌*◌, ◌≤◌, ◌≡◌, refl, ◌∙◌, Bool, true, false, List, [], ◌∷◌, map, any,
  select, length, take, All, arith, ◌==◌, Bool-cases, inl, inr,
}
use payment_processing.Payments.Models.{Uuid}
use payment_processing.Payments.Redis.{Redis}
use payment_processing.Payments.Repository.{PaymentRow, Tables}
use payment_processing.Payments.Repository.Statements.{
  is_pending, columns, insert_by_created, order_by_created, select_pending, select_pending_rows,
}
use payment_processing.Payments.Repository.Coverage.{
  pending_rows, length-order_by_created, any-columns, select_pending_known,
}
use payment_processing.Payments.Worker.{World, reconcile_once, run_reconciliation}
use payment_processing.Payments.Worker.Reconciliation.{
  Listed, succeed_all, succeed_all_settled, succeed_all_listed, reconcile_all_served,
  reconcile_once_served,
}

module _ (q : PaymentRow → Bool) where
  length-select-insert_by_created :
      (p : PaymentRow) (ps : List PaymentRow)
      → length (select q (insert_by_created p ps)) ≡ length (select q (p ∷ ps))
  unfolding insert_by_created
  length-select-insert_by_created p [] = refl
  length-select-insert_by_created p (r ∷ rs) = ground (arith, length-select-insert_by_created p rs)

  length-select-order_by_created :
      (ps : List PaymentRow) → length (select q (order_by_created ps)) ≡ length (select q ps)
  unfolding order_by_created
  length-select-order_by_created [] = refl
  length-select-order_by_created (p ∷ ps) = ground (
    arith,
    length-select-insert_by_created p (order_by_created ps),
    length-select-order_by_created ps,
  )

  length-take-select :
      (n : ℕ) (ps : List PaymentRow)
      → All (λ p. q p ≡ true) (take n ps)
      → length (take n ps) ≤ length (select q ps)
  length-take-select zero ps h = omega arith
  length-take-select (suc n) [] h = omega arith
  length-take-select (suc n) (p ∷ ps) h = ground (arith, length-take-select n ps h.1)

length-take_left :
    (n m : ℕ) (ps : List PaymentRow) → length ps ≤ n + m → length ps ≤ length (take n ps) + m
length-take_left zero m ps h = omega arith
length-take_left (suc n) m [] h = omega arith
length-take_left (suc n) m (p ∷ ps) h = omega (arith, length-take_left n m ps (omega arith))

abbrev is_listed : Listed → PaymentRow → Bool
is_listed xs p = any (λ x. x.0 == p.id) xs

All-is_listed :
    (xs : Listed) (ps : List PaymentRow)
    → ((id : Uuid) → any (λ p. p.id == id) ps ≡ true → any (λ x. x.0 == id) xs ≡ true)
    → All (λ p. is_listed xs p ≡ true) ps
All-is_listed xs [] h = tt
All-is_listed xs (p ∷ ps) h =
    (h p.id (ground arith), All-is_listed xs ps (λ id e. h id (ground arith)))

-- Marking the listed payments takes each pending one of them off those that are pending.
pending_left :
    (xs : Listed) (now : ℕ) (ps : List PaymentRow)
    → length (select is_pending (map (succeed_all xs now) ps))
        + length (select (is_listed xs) (select is_pending ps))
      ≤ length (select is_pending ps)
pending_left xs now [] = omega arith
pending_left xs now (p ∷ ps) = elim (Bool-cases (is_pending p)) [
  | inr e ↦ rw (e, succeed_all_settled xs now p e) (pending_left xs now ps)
  | inl e ↦ elim (Bool-cases (is_listed xs p)) [
    | inl l ↦ rw (e, l, succeed_all_listed xs now p l) (omega (arith, pending_left xs now ps))
    | inr l ↦ elim (Bool-cases (is_pending (succeed_all xs now p))) [
      | inl k ↦ rw (e, l, k) (omega (arith, pending_left xs now ps))
      | inr k ↦ rw (e, l, k) (omega (arith, pending_left xs now ps))
    ]
  ]
]

-- What one query lists, marked, leaves at most those that it did not reach.
select_pending_left :
    (t : Tables) (now m : ℕ)
    → length (pending_rows t) ≤ 100 + m
    → length (select is_pending (map (succeed_all (select_pending t) now) t.payments)) ≤ m
unfolding select_pending select_pending_rows
select_pending_left t now m few =
    let sorted = order_by_created (pending_rows t) in
    let rows = take 100 sorted in
    let xs = map columns rows in
    let listed : All (λ p. is_listed xs p ≡ true) rows =
      All-is_listed xs rows (λ id e. any-columns id rows ∙ e) in
    let reached = length-take-select (is_listed xs) 100 sorted listed in
    let same = length-select-order_by_created (is_listed xs) (pending_rows t) in
    let left =
      length-take_left 100 m sorted (omega (arith, length-order_by_created (pending_rows t))) in
    omega (
      arith,
      pending_left xs now t.payments,
      reached,
      same,
      left,
      length-order_by_created (pending_rows t),
    )

none_selected :
    (ps : List PaymentRow) → length (select is_pending ps) ≤ 0 → any is_pending ps ≡ false
none_selected [] h = refl
none_selected (p ∷ ps) h = ground (arith, none_selected ps)

module _ (redis : Redis) (uuid_text : Uuid → String) where
  reconcile_once_left :
      (m : ℕ) (w : World redis)
      → w.db.outcomes ≡ []
      → length (pending_rows w.db.tables) ≤ 100 + m
      → let w' = (reconcile_once redis uuid_text w).1 in
        (w'.db.outcomes ≡ []) × (length (pending_rows w'.db.tables) ≤ m)
  reconcile_once_left m w served few =
      let xs = select_pending w.db.tables in
      let (_, payments, outcomes) =
        reconcile_all_served uuid_text redis xs w served (select_pending_known w.db.tables) in
      rw (reconcile_once_served uuid_text redis w served)
        (outcomes, rw payments (select_pending_left w.db.tables w.db.clock m few))

  -- With every round trip served, rounds enough for the pending payments at a hundred each leave no
  -- payment pending.
  pub run_reconciliation_clears :
      (rounds : ℕ) (w : World redis)
      → w.db.outcomes ≡ []
      → length (pending_rows w.db.tables) ≤ 100 * rounds
      → any is_pending (run_reconciliation redis uuid_text rounds w).db.tables.payments ≡ false
  unfolding run_reconciliation
  run_reconciliation_clears zero w served few = none_selected w.db.tables.payments (omega arith)
  run_reconciliation_clears (suc n) w served few =
      let (outcomes, left) = reconcile_once_left (100 * n) w served (omega arith) in
      run_reconciliation_clears n (reconcile_once redis uuid_text w).1 outcomes left
