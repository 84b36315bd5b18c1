-- ===== src/Payments/Worker/Reconciliation.antt =====
-- `reconcile_once` of approach-1/apps/worker/src/main.rs: every pending payment is marked.
pub mod Rounds
mod Tests
use mathlib.Core.List.{map-id}
use payment_processing.Common.{
  sym, ℕ, String, ◌≤◌, ◌≡◌, refl, ◌∙◌, ap, inl, inr, true, false, ◌&&◌, List, [], ◌∷◌, map, any,
  length, All, ok, arith, ◌==◌, Bool-cases,
}
use payment_processing.Payments.Models.{Uuid, pos}
use payment_processing.Payments.Redis.{Redis}
use payment_processing.Payments.Repository.{
  PaymentRow, Session, execute, insert_settlement_for, pending_payments, fetch,
}
use payment_processing.Payments.Repository.Statements.{
  succeed, is_pending, payment_exists, select_pending, insert_settlement,
}
use payment_processing.Payments.Repository.Settling.{settled, mark_payment_success_served}
use payment_processing.Payments.Repository.Coverage.{
  pending_rows, any-select_pending_all, select_pending_known,
}
use payment_processing.Payments.Repository.Keys.{All-mono}
use payment_processing.Payments.Repository.Updates.{payment_exists-succeed}
use payment_processing.Payments.Worker.{World, reconcile_all, reconcile_once}

abbrev pub Listed : Type 0
Listed = List (Uuid × Uuid × String)

-- A row after the payments listed have been marked, one after the other.
abbrev pub succeed_all : Listed → ℕ → PaymentRow → PaymentRow
succeed_all [] now p = p
succeed_all (x ∷ xs) now p = succeed_all xs now (succeed x.0 now p)

succeed_hit :
    (id : Uuid) (now : ℕ) (p : PaymentRow)
    → (p.id == id) ≡ true
    → is_pending (succeed id now p) ≡ false
succeed_hit id now p e = rw e

succeed_settled :
    (id : Uuid) (now : ℕ) (p : PaymentRow)
    → is_pending p ≡ false
    → is_pending (succeed id now p) ≡ false
succeed_settled id now p h = elim (Bool-cases (p.id == id)) [ inl e ↦ rw e | inr e ↦ rw e h ]

succeed-id : (id : Uuid) (now : ℕ) (p : PaymentRow) → (succeed id now p).id ≡ p.id
succeed-id id now p = ground arith

pub succeed_all_settled :
    (xs : Listed) (now : ℕ) (p : PaymentRow)
    → is_pending p ≡ false
    → is_pending (succeed_all xs now p) ≡ false
succeed_all_settled [] now p h = h
succeed_all_settled (x ∷ xs) now p h =
    succeed_all_settled xs now (succeed x.0 now p) (succeed_settled x.0 now p h)

pub succeed_all_listed :
    (xs : Listed) (now : ℕ) (p : PaymentRow)
    → any (λ x. x.0 == p.id) xs ≡ true
    → is_pending (succeed_all xs now p) ≡ false
succeed_all_listed [] now p h = ground arith
succeed_all_listed (x ∷ xs) now p h = elim (Bool-cases (x.0 == p.id)) [
  | inl e ↦ succeed_all_settled xs now (succeed x.0 now p) (succeed_hit x.0 now p (ground arith))
  | inr e ↦ succeed_all_listed xs now (succeed x.0 now p) (rw (succeed-id x.0 now p) (ground arith))
]

map-succeed_all :
    (x : Uuid × Uuid × String) (xs : Listed) (now : ℕ) (ps : List PaymentRow)
    → map (succeed_all xs now) (map (succeed x.0 now) ps) ≡ map (succeed_all (x ∷ xs) now) ps
map-succeed_all x xs now [] = refl
map-succeed_all x xs now (p ∷ ps) = cc (map-succeed_all x xs now ps)

-- The row is among those listed if it is pending.
abbrev Covered : Listed → PaymentRow → Type 0
Covered xs p = is_pending p ≡ true → any (λ x. x.0 == p.id) xs ≡ true

succeed_all-Covered :
    (xs : Listed) (now : ℕ) (p : PaymentRow)
    → Covered xs p
    → is_pending (succeed_all xs now p) ≡ false
succeed_all-Covered xs now p h = elim (Bool-cases (is_pending p)) [
  | inl e ↦ succeed_all_listed xs now p (h e)
  | inr e ↦ succeed_all_settled xs now p e
]

none_pending :
    (xs : Listed) (now : ℕ) (ps : List PaymentRow)
    → All (Covered xs) ps
    → any is_pending (map (succeed_all xs now) ps) ≡ false
none_pending xs now [] h = refl
none_pending xs now (p ∷ ps) h = rw (succeed_all-Covered xs now p h.0) (none_pending xs now ps h.1)

-- A list that has every pending identifier covers every row.
All-Covered :
    (xs : Listed) (ps : List PaymentRow)
    → ((id : Uuid)
        → any (λ p. is_pending p && (p.id == id)) ps ≡ true
        → any (λ x. x.0 == id) xs ≡ true)
    → All (Covered xs) ps
All-Covered xs [] h = tt
All-Covered xs (p ∷ ps) h =
    (λ e. h p.id (ground arith), All-Covered xs ps (λ id e. h id (ground arith)))

module _ (uuid_text : Uuid → String) where
  insert_settlement_for_frame :
      (id : Uuid) (gateway : String) (s : Session)
      → s.outcomes ≡ []
      → payment_exists s.tables id ≡ true
      → let (r, s') = insert_settlement_for uuid_text id gateway (pos 100) s in
        (r ≡ ok tt)
        × (s'.tables.payments ≡ s.tables.payments)
        × (s'.outcomes ≡ [])
        × (s'.clock ≡ s.clock)
  unfolding insert_settlement_for execute insert_settlement
  insert_settlement_for_frame id gateway s served known = ground arith

  -- The session after one round of the loop.
  abbrev after_round : Uuid × Uuid × String → Session → Session
  after_round x s =
      (insert_settlement_for uuid_text x.0 x.2 (pos 100)
        (record s { tables = settled x.0 x.1 s.clock s.tables })).1

  module _ (x : Uuid × Uuid × String) (s : Session) (served : s.outcomes ≡ [])
      (known : payment_exists s.tables x.0 ≡ true) where
    settled_first :
        let (r, s') =
          insert_settlement_for uuid_text x.0 x.2
            (pos 100)
            (record s { tables = settled x.0 x.1 s.clock s.tables }) in
        (r ≡ ok tt)
        × (s'.tables.payments ≡ map (succeed x.0 s.clock) s.tables.payments)
        × (s'.outcomes ≡ [])
        × (s'.clock ≡ s.clock)
    settled_first =
        insert_settlement_for_frame x.0 x.2 (record s { tables = settled x.0 x.1 s.clock s.tables })
          served (payment_exists-succeed x.0 s.clock s.tables x.0 ∙ known)

  reconcile_all_round :
      (redis : Redis) (x : Uuid × Uuid × String) (xs : Listed) (w : World redis)
      → w.db.outcomes ≡ []
      → payment_exists w.db.tables x.0 ≡ true
      → reconcile_all redis uuid_text (x ∷ xs) w
        ≡ reconcile_all redis uuid_text xs (record w { db = after_round x w.db })
  unfolding reconcile_all
  reconcile_all_round redis x xs w served known =
      ground
        (arith, mark_payment_success_served x.0 x.1 w.db served, settled_first x w.db served known)

  -- The listed payments are marked, one after the other, at the time of the call.
  pub reconcile_all_served :
      (redis : Redis) (xs : Listed) (w : World redis)
      → w.db.outcomes ≡ []
      → All (λ x. payment_exists w.db.tables x.0 ≡ true) xs
      → let (r, w') = reconcile_all redis uuid_text xs w in
        (r ≡ ok tt)
        × (w'.db.tables.payments ≡ map (succeed_all xs w.db.clock) w.db.tables.payments)
        × (w'.db.outcomes ≡ [])
  reconcile_all_served redis [] w served known =
      unfold reconcile_all in (refl, sym (map-id w.db.tables.payments), served)
  reconcile_all_served redis (x ∷ xs) w served known =
      let step = settled_first x w.db served known.0 in
      let known_after : All (λ y. payment_exists (after_round x w.db).tables y.0 ≡ true) xs =
        All-mono _ _ xs
          (λ y h.
            ap (any (λ p. p.id == y.0)) step.1
            ∙ payment_exists-succeed x.0 w.db.clock w.db.tables y.0
            ∙ h)
          known.1 in
      let rest =
        reconcile_all_served redis xs (record w { db = after_round x w.db }) step.2 known_after in
      rw (reconcile_all_round redis x xs w served known.0) (
        rest.0,
        rest.1 ∙ (rw (step.3, step.1) (map-succeed_all x xs w.db.clock w.db.tables.payments)),
        rest.2,
      )

  pub reconcile_once_served :
      (redis : Redis) (w : World redis)
      → w.db.outcomes ≡ []
      → reconcile_once redis uuid_text w
        ≡ reconcile_all redis uuid_text (select_pending w.db.tables) w
  unfolding reconcile_once pending_payments fetch
  reconcile_once_served redis w served = ground arith

  -- With every round trip served and at most a hundred payments pending, `reconcile_once` succeeds
  -- and leaves no payment pending, whatever the gateways have reported of it.
  pub reconcile_once_clears :
      (redis : Redis) (w : World redis)
      → w.db.outcomes ≡ []
      → length (pending_rows w.db.tables) ≤ 100
      → let (r, w') = reconcile_once redis uuid_text w in
        (r ≡ ok tt) × (any is_pending w'.db.tables.payments ≡ false)
  reconcile_once_clears redis w served few =
      let xs = select_pending w.db.tables in
      let rest = reconcile_all_served redis xs w served (select_pending_known w.db.tables) in
      rw (reconcile_once_served redis w served) (
        rest.0,
        rw rest.1 (
            none_pending xs w.db.clock w.db.tables.payments (
              All-Covered xs w.db.tables.payments
                (λ id e. any-select_pending_all id w.db.tables few ∙ e))),
      )
