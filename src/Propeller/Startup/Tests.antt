-- ===== src/Propeller/Startup/Tests.antt =====
-- A start with the settings of approach-2/config/propeller.toml.
use payment_processing.Common.{ℕ, String, ◌≡◌, refl, [], ok}
use payment_processing.Propeller.Config.{load, validate}
use payment_processing.Propeller.Config.Fixtures.{propeller}
use payment_processing.Propeller.Startup.{
  Environment, Program, IsStarted, settings_of, fresh, new_pubsub, start, start-IsStarted,
}

abbrev env : Environment
env = record {
  Client = String;
  Connection = String;
  Address = String;
  Listener = String;
  read_settings = λ path. ok propeller;
  open_client = ok;
  get_connection = λ attempt client. ok client;
  parse_address = ok;
  bind = ok;
}

abbrev program : Program env ℕ ℕ
program = record {
  pubsub_connection = "redis://127.0.0.1:6379";
  kv_connection = "redis://127.0.0.1:6379";
  grpc_handler = settings_of propeller;
  ws_state = settings_of propeller;
  grpc_address = "0.0.0.0:50051";
  http_listener = "0.0.0.0:8080";
  world = fresh 0 0 [];
}

started : start env 0 0 [] "config/propeller" ≡ ok program
unfolding start load validate new_pubsub
started = refl

start-IsStarted_example : IsStarted env 0 0 [] "config/propeller" program
start-IsStarted_example = start-IsStarted env 0 0 [] "config/propeller" program started
