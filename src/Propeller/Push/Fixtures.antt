-- ===== src/Propeller/Push/Fixtures.antt =====
-- What the tests share: a broker that keeps a list of what was published and is down for events that
-- begin with 0, a store that keeps the fields that it was given, and a state to start from.
use payment_processing.Common.{zero, String, true, List, [], ◌∷◌, some, Result, ok, err}
use payment_processing.Propeller.Config.{ClientConfig}
use payment_processing.Propeller.Auth.Signature.{Bytes}
use payment_processing.Propeller.Metrics.{new}
use payment_processing.Propeller.Ports.{PubSub, KeyValue}
use payment_processing.Propeller.Push.{World, Json, Device}

abbrev pub Log : Type 0
Log = List (String × Bytes)

abbrev pub send : String → Bytes → Log → Result String (Unit {0}) × Log
send channel (zero ∷ event) log = (err "down", log)
send channel event log = (ok tt, (channel, event) ∷ log)

abbrev pub recorder : PubSub Log
recorder = record {
  publish = send;
  publish_bulk = λ requests log. (ok tt, log);
  subscribe = λ channels log. (ok 5, log);
  add_subscription = λ channel sub log. (ok tt, log);
  remove_subscription = λ channel sub log. (ok tt, log);
  unsubscribe = λ sub log. (ok tt, log);
  active_topic_listeners = λ log. 0;
}

abbrev pub fields : KeyValue (List String)
fields = record {
  store = λ key field value kept. (ok tt, field ∷ kept);
  load = λ key kept. (ok [], kept);
  delete = λ key gone kept. (ok tt, []);
}

abbrev pub json : Json
json = record { to_string = λ attributes. ok "{}"; from_str = λ text. some [] }

abbrev pub config : ClientConfig
config = record {
  header = "x-client-id";
  device_header = "x-device-id";
  enable_device_support = true;
  device_attribute_headers = [];
}

abbrev pub start : World Log (List String)
start = record { pubsub = []; kv = []; metrics = new }

abbrev pub phone : Device
phone = record { id = "phone"; attributes = [] }
