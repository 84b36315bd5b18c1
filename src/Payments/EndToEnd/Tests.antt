-- ===== src/Payments/EndToEnd/Tests.antt =====
-- One order, and the webhook that pays it.
use payment_processing.Common.{String, [], ◌∷◌, ◌+◌, Option, some}
use payment_processing.Payments.Models.{pos, PaymentStatus, GatewayWebhookEvent}
use payment_processing.Payments.Redis.Memory.{memory}
use payment_processing.Payments.Repository.{Session}
use payment_processing.Payments.Api.{Hub}

abbrev session : Session
session = record {
  tables = record {
    orders =
        record {
          id = 1;
          user_id = "u1";
          amount = pos 45000;
          currency = "INR";
          status = "PENDING";
          created_at = 10;
          updated_at = 10;
        }
        ∷ [];
    payments =
        record {
          id = 2;
          order_id = 1;
          gateway = "Razorpay";
          method = "UPI";
          checkout_url = "";
          status = "PENDING";
          created_at = 20;
          updated_at = 20;
        }
        ∷ [];
    transactions = [];
    settlements = [];
  };
  outcomes = [];
  random = λ n. 1000 + n;
  drawn = 0;
  clock = 100;
}

abbrev event : String → GatewayWebhookEvent
event gateway = record {
  event_id = "evt_1";
  gateway = gateway;
  order_id = 1;
  payment_id = 2;
  gateway_txn_id = "txn_1";
  status = PaymentStatus.success;
  amount = pos 45000;
  signature = "";
  occurred_at = 90;
}

-- A codec of this one event, from the path's gateway.
abbrev to_json : GatewayWebhookEvent → String
to_json e = e.gateway

abbrev parse : String → Option GatewayWebhookEvent
parse payload = some (event payload)

abbrev hub : Hub memory
hub = record {
  world = record { db = session; store = record { keys = []; messages = []; entries = [] } };
  ws_sent = [];
}
