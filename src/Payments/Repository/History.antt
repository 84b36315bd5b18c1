-- ===== src/Payments/Repository/History.antt =====
-- Every history of calls of the repository, whatever the environment answers.
use payment_processing.Common.{ℕ, String, ◌≡◌, refl, inl, inr, List, [], ◌∷◌, Result, ok, err}
use payment_processing.Payments.Models.{Uuid, ℤ, PaymentMethod, GatewayWebhookEvent}
use payment_processing.Payments.Repository.{
  OrderRow, PaymentRow, TransactionRow, SettlementRow, Tables, Session, Outcome, Action, Statement,
  DbError, served, refused, unanswered, apply, execute, fetch, answer, next_outcome, later,
  create_order, create_payment, mark_payment_success, log_transaction, pending_payments,
  insert_settlement_for,
}
use payment_processing.Payments.Repository.Statements.{
  insert_order, insert_payment, insert_transaction, insert_settlement, select_pending,
  set_payment_success, set_order_paid,
}
use payment_processing.Payments.Repository.Constraints.{Lawful, Lawful-refl, Lawful-trans, Follows}
use payment_processing.Payments.Repository.Inserts.{
  insert_order-Follows, insert_payment-Follows, insert_transaction-Follows,
  insert_settlement-Follows,
}
use payment_processing.Payments.Repository.Updates.{
  set_payment_success-Follows, set_order_paid-Follows,
}
use payment_processing.Payments.Repository.Settling.{settled, mark_payment_success_atomic}

-- The methods, with their arguments, and the passing of time; the JSON text of an event is a
-- parameter.
pub data Call : Type 0 where
  creates_order : String → ℤ → String → Call
  creates_payment : Uuid → String → PaymentMethod → String → Call
  marks_success : Uuid → Uuid → Call
  logs : GatewayWebhookEvent → Call
  lists_pending : Call
  settles : Uuid → String → ℤ → Call
  waits_until : ℕ → Call

module _ (uuid_text : Uuid → String) (to_json : GatewayWebhookEvent → String) where
  abbrev pub perform : Call → Session → Session
  perform (creates_order user amount currency) s = (create_order user amount currency s).1
  perform (creates_payment order_id gateway method url) s =
      (create_payment order_id gateway method url s).1
  perform (marks_success payment_id order_id) s = (mark_payment_success payment_id order_id s).1
  perform (logs event) s = (log_transaction to_json event s).1
  perform lists_pending s = (pending_payments s).1
  perform (settles payment_id gateway amount) s =
      (insert_settlement_for uuid_text payment_id gateway amount s).1
  perform (waits_until now) s = record s { clock = now }

  abbrev pub history : List Call → Session → Session
  history [] s = s
  history (c ∷ cs) s = history cs (perform c s)

-- What a relation of tables has to allow so that no history leaves it. Orders and payments are
-- inserted as pending.
pub record IsKept (R : Tables → Tables → Type 0) : Type 0 where
  pub self : (t : Tables) → R t t
  pub join : {t u v : Tables} → R t u → R u v → R t v
  pub inserts_order :
      (row : OrderRow) (t : Tables) → row.status ≡ "PENDING" → Follows R t (insert_order row t)
  pub inserts_payment :
      (row : PaymentRow) (t : Tables) → row.status ≡ "PENDING" → Follows R t (insert_payment row t)
  pub inserts_transaction :
      (row : TransactionRow) (t : Tables) → Follows R t (insert_transaction row t)
  pub inserts_settlement :
      (row : SettlementRow) (t : Tables) → Follows R t (insert_settlement row t)
  pub settles_payment :
      (payment_id order_id : Uuid) (now : ℕ) (t : Tables) → R t (settled payment_id order_id now t)

-- A query leaves the session's tables alone.
pub answer-same : {A : Type 0} (o : Outcome) (a : A) (s : Session) → (answer o a s).1 ≡ s
answer-same served a s = refl
answer-same refused a s = refl
answer-same unanswered a s = refl

module _ {R : Tables → Tables → Type 0} (kept : IsKept R) where
  -- Run from any session, the action changes the tables as the relation allows.
  abbrev Keeps : {A : Type 0} → Action A → Type 0
  Keeps m = (s : Session) → R s.tables (m s).1.tables

  apply-kept :
      (o : Outcome) (r : Result DbError Tables) (s : Session)
      → Follows R s.tables r
      → R s.tables (apply o r s).1.tables
  apply-kept served (ok t) s h = h
  apply-kept served (err e) s h = kept.self s.tables
  apply-kept refused r s h = kept.self s.tables
  apply-kept unanswered (ok t) s h = h
  apply-kept unanswered (err e) s h = kept.self s.tables

  execute-Keeps :
      (statement : Statement)
      → ((t : Tables) → Follows R t (statement t))
      → Keeps (execute statement)
  unfolding execute
  execute-Keeps statement h s =
      apply-kept (next_outcome s.outcomes) (statement s.tables)
        (record s { outcomes = later s.outcomes }) (h s.tables)

  -- An action that only returns a value after its statement.
  then_pure-kept :
      {A : Type 0} (a : A) (t : Tables) (r : Result DbError (Unit {0})) (s : Session)
      → R t s.tables
      → R t
          (elim r as (λ _. Result DbError A × Session) [
            | ok _ ↦ (ok a, s)
            | err e ↦ (err e, s)
          ]).1.tables
  then_pure-kept a t (ok _) s h = h
  then_pure-kept a t (err e) s h = h

  create_order-Keeps :
      (user : String) (amount : ℤ) (currency : String) → Keeps (create_order user amount currency)
  unfolding create_order
  create_order-Keeps user amount currency s =
      then_pure-kept _ s.tables _ _ (execute-Keeps _ (λ t. kept.inserts_order _ t refl) _)

  create_payment-Keeps :
      (order_id : Uuid) (gateway : String) (method : PaymentMethod) (url : String)
      → Keeps (create_payment order_id gateway method url)
  unfolding create_payment
  create_payment-Keeps order_id gateway method url s =
      then_pure-kept _ s.tables _ _ (execute-Keeps _ (λ t. kept.inserts_payment _ t refl) _)

  log_transaction-Keeps :
      (to_json : GatewayWebhookEvent → String) (event : GatewayWebhookEvent)
      → Keeps (log_transaction to_json event)
  unfolding log_transaction
  log_transaction-Keeps to_json event s = execute-Keeps _ (kept.inserts_transaction _) _

  insert_settlement_for-Keeps :
      (uuid_text : Uuid → String) (id : Uuid) (gateway : String) (amount : ℤ)
      → Keeps (insert_settlement_for uuid_text id gateway amount)
  unfolding insert_settlement_for
  insert_settlement_for-Keeps uuid_text id gateway amount s =
      execute-Keeps _ (kept.inserts_settlement _) _

  mark_payment_success-Keeps :
      (payment_id order_id : Uuid) → Keeps (mark_payment_success payment_id order_id)
  mark_payment_success-Keeps payment_id order_id s =
      elim (mark_payment_success_atomic payment_id order_id s) [
        | inl (_, same) ↦ rw same (kept.self s.tables)
        | inr both ↦ rw both (kept.settles_payment payment_id order_id s.clock s.tables)
      ]

  module _ (uuid_text : Uuid → String) (to_json : GatewayWebhookEvent → String) where
    perform-kept : (c : Call) (s : Session) → R s.tables (perform uuid_text to_json c s).tables
    unfolding pending_payments fetch
    perform-kept (creates_order user amount currency) = create_order-Keeps user amount currency
    perform-kept (creates_payment order_id gateway method url) =
        create_payment-Keeps order_id gateway method url
    perform-kept (marks_success payment_id order_id) =
        mark_payment_success-Keeps payment_id order_id
    perform-kept (logs event) = log_transaction-Keeps to_json event
    perform-kept lists_pending = λ s.
        rw (answer-same (next_outcome s.outcomes) (select_pending s.tables)) (kept.self s.tables)
    perform-kept (settles payment_id gateway amount) =
        insert_settlement_for-Keeps uuid_text payment_id gateway amount
    perform-kept (waits_until now) = λ s. kept.self s.tables

    pub history-kept :
        (cs : List Call) (s : Session) → R s.tables (history uuid_text to_json cs s).tables
    history-kept [] s = kept.self s.tables
    history-kept (c ∷ cs) s =
        kept.join (perform-kept c s) (history-kept cs (perform uuid_text to_json c s))

settled-Lawful :
    (payment_id order_id : Uuid) (now : ℕ) (t : Tables)
    → Lawful t (settled payment_id order_id now t)
unfolding set_payment_success set_order_paid
settled-Lawful payment_id order_id now t =
    Lawful-trans (set_payment_success-Follows payment_id now t)
      (set_order_paid-Follows order_id now _)

Lawful-IsKept : IsKept Lawful
Lawful-IsKept = record {
  self = Lawful-refl;
  join = λ {t} {u} {v} f g. Lawful-trans f g;
  inserts_order = λ row t pending. insert_order-Follows row t;
  inserts_payment = λ row t pending. insert_payment-Follows row t;
  inserts_transaction = insert_transaction-Follows;
  inserts_settlement = insert_settlement-Follows;
  settles_payment = settled-Lawful;
}

-- Over any history of calls, whatever the environment answers to each round trip, the tables go on
-- meeting every key of the schema, a paid order stays paid and a successful payment stays
-- successful.
pub history-Lawful :
    (uuid_text : Uuid → String) (to_json : GatewayWebhookEvent → String) (cs : List Call)
    (s : Session)
    → Lawful s.tables (history uuid_text to_json cs s).tables
history-Lawful = history-kept Lawful-IsKept
