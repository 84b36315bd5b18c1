-- ===== src/Payments/Worker/Tests.antt =====
-- The worker and the repository on one order with two payments.
use payment_processing.Common.{
  ℕ, ◌+◌, String, ◌≡◌, ◌≢◌, refl, ◌⊎◌, true, false, List, [], ◌∷◌, Option, some, ok, err, arith,
  any, none, inl, ◌==◌,
}
use payment_processing.Payments.Models.{Uuid, pos, PaymentStatus, GatewayWebhookEvent}
use payment_processing.Payments.Redis.Memory.{memory}
use payment_processing.Payments.Repository.{
  OrderRow, PaymentRow, Tables, Session, Outcome, connection, refused, served, unanswered,
  mark_payment_success, log_transaction, execute, begin, execute_in, commit,
}
use payment_processing.Payments.Repository.Statements.{
  select_pending, select_pending_rows, insert_transaction, set_payment_success, set_order_paid,
}
use payment_processing.Payments.Repository.Constraints.{is_paid, Lawful}
use payment_processing.Payments.Repository.Settling.{settled, mark_payment_success_atomic}
use payment_processing.Payments.Repository.Statuses.{NoneFailed, history-NoneFailed}
use payment_processing.Payments.Repository.History.{Call, history, history-Lawful}
use payment_processing.Payments.Worker.{
  World, database, idem_key, handle_event, handle_all, process_webhooks, poll, read_after,
  with_payload, process, confirm, mark_if_absent, publish_payment_confirmed, reconcile_once,
}
use payment_processing.Payments.Worker.Unsettled.{reconcile_once_unsettled}
use payment_processing.Payments.Worker.Stream.{IsNumbered}
use payment_processing.Payments.Worker.Stream.Memory.{memory_stream}
use payment_processing.Payments.Worker.Polling.{process_webhooks_drains, process_webhooks_stalls}
use payment_processing.Common.Text.{◌==◌ as same_text, eq_iff}
use payment_processing.Payments.Worker.Deliveries.{SameEffects, wait, deliver_all, deliver_all_once}
use payment_processing.Payments.Worker.Expiry.{expired_key_is_new}
use payment_processing.Payments.Worker.Effects.{Answers, unlogged_success_is_lost}
use payment_processing.Payments.Worker.Keys.{idem_key_collision}

abbrev order : OrderRow
order = record {
  id = 1;
  user_id = "u1";
  amount = pos 45000;
  currency = "INR";
  status = "PENDING";
  created_at = 10;
  updated_at = 10;
}

abbrev payment : Uuid → ℕ → PaymentRow
payment id created_at = record {
  id = id;
  order_id = 1;
  gateway = "Razorpay";
  method = "UPI";
  checkout_url = "";
  status = "PENDING";
  created_at = created_at;
  updated_at = created_at;
}

abbrev tables : Tables
tables = record {
  orders = order ∷ [];
  payments = payment 3 30 ∷ payment 2 20 ∷ [];
  transactions = [];
  settlements = [];
}

abbrev session : List Outcome → Session
session os = record {
  tables = tables;
  outcomes = os;
  random = λ n. 1000 + n;
  drawn = 0;
  clock = 100;
}

abbrev event : PaymentStatus → GatewayWebhookEvent
event status = record {
  event_id = "evt_1";
  gateway = "Razorpay";
  order_id = 1;
  payment_id = 2;
  gateway_txn_id = "txn_1";
  status = status;
  amount = pos 45000;
  signature = "not checked";
  occurred_at = 90;
}

abbrev parse : PaymentStatus → String → Option GatewayWebhookEvent
parse status payload = some (event status)

abbrev to_json : GatewayWebhookEvent → String
to_json e = "json"

abbrev world : List Outcome → World memory
world os = record { db = session os; store = record { keys = []; messages = []; entries = [] } }

Answers_example : Answers memory (event PaymentStatus.success) "p" (world []).store
Answers_example = record { is_new = refl; expires = refl; publishes = refl }

mark_payment_success_atomic_example :
    let (r, s') = mark_payment_success 2 1 (session (served ∷ served ∷ refused ∷ [])) in
    ((r ≢ ok tt) × (s'.tables ≡ tables)) ⊎ (s'.tables ≡ settled 2 1 100 tables)
mark_payment_success_atomic_example =
    mark_payment_success_atomic 2 1 (session (served ∷ served ∷ refused ∷ []))

abbrev calls : List Call
calls =
    Call.marks_success 2 1
    ∷ Call.logs (event PaymentStatus.failed)
    ∷ Call.creates_order "u2" (pos 5) "INR"
    ∷ []

history-Lawful_example :
    Lawful tables (history (λ i. "x") to_json calls (session (unanswered ∷ []))).tables
history-Lawful_example = history-Lawful (λ i. "x") to_json calls (session (unanswered ∷ []))

history-NoneFailed_example :
    NoneFailed (history (λ i. "x") to_json calls (session (unanswered ∷ []))).tables
history-NoneFailed_example =
    history-NoneFailed (λ i. "x") to_json calls (session (unanswered ∷ []))
      (record { orders = (inl refl, tt); payments = (inl refl, (inl refl, tt)) })

pending_oldest_first : select_pending_rows tables ≡ payment 2 20 ∷ payment 3 30 ∷ []
unfolding select_pending_rows
pending_oldest_first = refl

abbrev again : List (ℕ × String)
again = (1800, "q") ∷ (1799, "p") ∷ []

deliver_all_once_example :
    let w = (handle_event memory (parse PaymentStatus.success) to_json "p" (world [])).1 in
    SameEffects memory w (deliver_all memory (parse PaymentStatus.success) to_json again w)
deliver_all_once_example =
    deliver_all_once memory (parse PaymentStatus.success) to_json "p" (event PaymentStatus.success)
      again (world []) refl refl
      ((event PaymentStatus.success, refl, refl), ((event PaymentStatus.success, refl, refl), tt))
      (omega arith)

expired_key_is_new_example :
    let w = (handle_event memory (parse PaymentStatus.success) to_json "p" (world [])).1 in
    let w' = wait memory (parse PaymentStatus.success) to_json 3600 w in
    (memory.set_nx (idem_key (event PaymentStatus.success)) "1" w'.store).0 ≢ some false
expired_key_is_new_example =
    expired_key_is_new memory (parse PaymentStatus.success) to_json "p"
      (event PaymentStatus.success) 3600 (world []) refl Answers_example (omega arith)

-- After the hour the key is gone, and the event is processed, and published, again.
repeated_later :
    let w = (handle_event memory (parse PaymentStatus.success) to_json "p" (world [])).1 in
    (deliver_all memory (parse PaymentStatus.success) to_json ((3600, "p") ∷ []) w).store.messages
    ≡ ("payments.confirmed", "p") ∷ ("payments.confirmed", "p") ∷ []
unfolding handle_event mark_if_absent log_transaction execute insert_transaction confirm
    mark_payment_success begin execute_in set_payment_success set_order_paid commit
    publish_payment_confirmed idem_key
repeated_later = refl

unlogged_success_is_lost_example :
    let (r, w) =
      handle_event memory (parse PaymentStatus.success) to_json "p" (world (refused ∷ [])) in
    let w' = deliver_all memory (parse PaymentStatus.success) to_json again w in
    (r ≡ err (database connection)) × (w'.db.tables ≡ tables) × (w'.store.messages ≡ [])
unlogged_success_is_lost_example =
    unlogged_success_is_lost memory (parse PaymentStatus.success) to_json "p"
      (event PaymentStatus.success) again [] (world (refused ∷ [])) refl refl
      (record { is_new = refl; expires = refl; publishes = refl }) refl
      ((event PaymentStatus.success, refl, refl), ((event PaymentStatus.success, refl, refl), tt))
      (omega arith)

abbrev event_of : String → String → GatewayWebhookEvent
event_of gateway event_id = record (event PaymentStatus.success) {
  gateway = gateway;
  event_id = event_id;
}

idem_key_collision_example : idem_key (event_of "a:b" "c") ≡ idem_key (event_of "a" "b:c")
idem_key_collision_example =
    idem_key_collision (event_of "a:b" "c") (event_of "a" "b:c") "b" refl refl

-- A stream of two webhooks.
abbrev streamed : World memory
streamed = record {
  db = session [];
  store = record { keys = []; messages = []; entries = ("1-0", some "p") ∷ ("2-0", some "q") ∷ [] };
}

unlike : (s t : String) → same_text s t ≡ false → s ≢ t
unlike s t e same = let h = (eq_iff s t).1 same in absurd (grind (arith, h, e))

streamed-IsNumbered : IsNumbered "0-0" streamed.store.entries
streamed-IsNumbered =
    ((unlike "0-0" "1-0" refl, (unlike "0-0" "2-0" refl, tt)), ((unlike "1-0" "2-0" refl, tt), tt))

process_webhooks_drains_example :
    process_webhooks memory (parse PaymentStatus.success) to_json 1 streamed
    ≡ handle_all memory
        (parse PaymentStatus.success)
        to_json
        (("1-0", "p") ∷ ("2-0", "q") ∷ [])
        "0-0"
        streamed
unfolding with_payload
process_webhooks_drains_example =
    process_webhooks_drains memory (parse PaymentStatus.success) to_json
      (memory_stream "stream:webhooks") 1 streamed streamed-IsNumbered (tt, (tt, tt)) (omega arith)

-- Both have the key of one event, which is settled and published once.
both_handled :
    let (id, w) = process_webhooks memory (parse PaymentStatus.success) to_json 2 streamed in
    (id ≡ "2-0")
    × (w.store.messages ≡ ("payments.confirmed", "p") ∷ [])
    × (is_paid w.db.tables 1 ≡ true)
unfolding process_webhooks poll handle_all read_after with_payload handle_event process confirm
    mark_if_absent publish_payment_confirmed log_transaction mark_payment_success execute
    insert_transaction idem_key begin execute_in set_payment_success set_order_paid commit
both_handled = (refl, refl, refl)

-- An entry without a payload.
abbrev blank : World memory
blank = record streamed {
  store = record { keys = []; messages = []; entries = ("1-0", none) ∷ [] };
}

process_webhooks_stalls_example :
    process_webhooks memory (parse PaymentStatus.success) to_json 9 blank ≡ ("0-0", blank)
process_webhooks_stalls_example =
    process_webhooks_stalls memory (parse PaymentStatus.success) to_json
      (memory_stream "stream:webhooks") 9 blank ((unlike "0-0" "1-0" refl, tt), tt) (tt, tt)

-- The sixth answer is that to the write of the settlement.
abbrev cut_off : World memory
cut_off = record streamed {
  db = session (served ∷ served ∷ served ∷ served ∷ served ∷ refused ∷ []);
}

cut_off-listed : select_pending tables ≡ (2, 1, "Razorpay") ∷ (3, 1, "Razorpay") ∷ []
unfolding select_pending
cut_off-listed = refl

reconcile_once_unsettled_example :
    let (r, w') = reconcile_once memory (λ i. "x") cut_off in
    (r ≡ err (database connection))
    × (w'.db.tables ≡ settled 2 1 100 tables)
    × (any (λ x. x.0 == 2) (select_pending w'.db.tables) ≡ false)
reconcile_once_unsettled_example =
    reconcile_once_unsettled memory (λ i. "x") 2 1 "Razorpay" ((3, 1, "Razorpay") ∷ []) [] cut_off
      cut_off-listed refl
