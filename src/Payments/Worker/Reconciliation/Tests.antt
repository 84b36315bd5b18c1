-- ===== src/Payments/Worker/Reconciliation/Tests.antt =====
-- A backlog of more payments than one query lists.
use payment_processing.Common.{
  ℕ, zero, suc, ◌+◌, ◌≡◌, refl, false, List, [], ◌∷◌, any, length, arith,
}
use payment_processing.Payments.Redis.Memory.{memory}
use payment_processing.Payments.Repository.{PaymentRow}
use payment_processing.Payments.Repository.Statements.{is_pending}
use payment_processing.Payments.Repository.Coverage.{pending_rows}
use payment_processing.Payments.Worker.{World, run_reconciliation}
use payment_processing.Payments.Worker.Reconciliation.Rounds.{run_reconciliation_clears}

abbrev backlog : ℕ → List PaymentRow
backlog zero = []
backlog (suc n) =
    record {
      id = n;
      order_id = 1;
      gateway = "Razorpay";
      method = "UPI";
      checkout_url = "";
      status = "PENDING";
      created_at = n;
      updated_at = n;
    }
    ∷ backlog n

abbrev world : World memory
world = record {
  db = record {
    tables = record { orders = []; payments = backlog 150; transactions = []; settlements = [] };
    outcomes = [];
    random = λ n. 1000 + n;
    drawn = 0;
    clock = 500;
  };
  store = record { keys = []; messages = []; entries = [] };
}

counted : length (pending_rows world.db.tables) ≡ 150
counted = refl

run_reconciliation_clears_example :
    any is_pending (run_reconciliation memory (λ i. "x") 2 world).db.tables.payments ≡ false
run_reconciliation_clears_example =
    run_reconciliation_clears memory (λ i. "x") 2 world refl (omega (arith, counted))
