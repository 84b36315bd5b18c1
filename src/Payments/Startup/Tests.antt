-- ===== src/Payments/Startup/Tests.antt =====
-- The programs with the defaults of their variables.
use payment_processing.Common.{String, ◌≡◌, refl, ok, err, some, none, if◌then◌else◌}
use payment_processing.Common.Text.{◌==◌}
use payment_processing.Payments.Gateway.{gateways}
use payment_processing.Payments.Startup.{
  Environment, WorkerState, ApiState, new_queue, bind_listener, start_worker, start_api,
}

abbrev unset : Environment
unset = record {
  Pool = String;
  Client = String;
  Address = String;
  Listener = String;
  var = λ name. none;
  connect = ok;
  open_client = ok;
  parse_address = ok;
  bind = ok;
}

abbrev env : Environment
env = record unset { var = λ name. if name == "DATABASE_URL" then some "postgres://db" else none }

abbrev worker : WorkerState env
worker = record {
  repo = "postgres://db";
  queue = record { client = "redis://127.0.0.1:6379"; stream = "stream:webhooks" };
  idempotency = "redis://127.0.0.1:6379";
  realtime = "redis://127.0.0.1:6379";
}

unset_refused : start_worker unset ≡ err "DATABASE_URL missing"
unfolding start_worker
unset_refused = refl

started : start_worker env ≡ ok worker
unfolding start_worker new_queue
started = refl

abbrev api : ApiState env
api = record {
  repo = "postgres://db";
  queue = record { client = "redis://127.0.0.1:6379"; stream = "stream:webhooks" };
  router = gateways (λ id. "id") (λ name. name);
  redis_client = "redis://127.0.0.1:6379";
  listener = "0.0.0.0:8080";
}

api_started : start_api env (λ id. "id") (λ name. name) ≡ ok api
unfolding start_api new_queue bind_listener gateways
api_started = refl
