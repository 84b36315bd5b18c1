-- ===== src/Payments/Startup.antt =====
-- The start of the two programs of approach-1: `main` of apps/api/src/main.rs up to where it serves and
-- `main` of apps/worker/src/main.rs up to its tasks, with the constructors of crates/adapters/src. What
-- the libraries answer is an environment.
mod Tests
use payment_processing.Common.{
  ℕ, String, ◌≡◌, refl, sym, ap, ◌∙◌, List, Option, Result, ok, err, ◌>>=◌, ok_or, unwrap_or, arith,
  bind_ok, given_ok, ok_injective,
}
use payment_processing.Payments.Models.{Uuid}
use payment_processing.Payments.Gateway.{PaymentGateway, gateways}

-- The variables, and the database, Redis and network libraries. A pool, a client, an address and a
-- listener are opaque; an `anyhow` error is its text.
pub record Environment : Type 1 where
  pub Pool : Type 0
  pub Client : Type 0
  pub Address : Type 0
  pub Listener : Type 0
  pub var : String → Option String
  pub connect : String → Result String Pool
  pub open_client : String → Result String Client
  pub parse_address : String → Result String Address
  pub bind : Address → Result String Listener

pub record WebhookQueue (env : Environment) : Type 0 where
  pub client : env.Client
  pub stream : String

-- What the tasks of the worker are given. A repository is its pool, and an idempotency store or a
-- publisher its client.
pub record WorkerState (env : Environment) : Type 0 where
  pub repo : env.Pool
  pub queue : WebhookQueue env
  pub idempotency : env.Client
  pub realtime : env.Client

-- `AppState` with its listener and the client of `forward_pubsub_to_ws`. The channel to the
-- WebSockets, which is new, is left out.
pub record ApiState (env : Environment) : Type 0 where
  pub repo : env.Pool
  pub queue : WebhookQueue env
  pub router : List PaymentGateway
  pub redis_client : env.Client
  pub listener : env.Listener

module _ (env : Environment) where
  abbrev redis_url : String
  redis_url = unwrap_or (env.var "REDIS_URL") "redis://127.0.0.1:6379"

  abbrev api_addr : String
  api_addr = unwrap_or (env.var "API_ADDR") "0.0.0.0:8080"

  -- `WebhookQueue::new`
  unfoldable pub new_queue : String → String → Result String (WebhookQueue env)
  new_queue redis_url stream = do
    client ← env.open_client redis_url
    ok (record { client = client; stream = stream })

  -- `main` of the worker, up to its first `spawn`.
  unfoldable pub start_worker : Result String (WorkerState env)
  unfolding new_queue
  start_worker = do
    database_url ← ok_or (env.var "DATABASE_URL") "DATABASE_URL missing"
    db ← env.connect database_url
    queue ← new_queue redis_url "stream:webhooks"
    idempotency ← env.open_client redis_url
    realtime ← env.open_client redis_url
    ok (record { repo = db; queue = queue; idempotency = idempotency; realtime = realtime })

  -- What stands behind the routes.
  unfoldable pub bind_listener : Result String env.Listener
  bind_listener = do addr ← env.parse_address api_addr; env.bind addr

  module _ (uuid_text : Uuid → String) (to_lowercase : String → String) where
    -- `main` of the API, up to `serve`.
    unfoldable pub start_api : Result String (ApiState env)
    unfolding new_queue bind_listener gateways
    start_api = do
      database_url ← ok_or (env.var "DATABASE_URL") "DATABASE_URL missing"
      db ← env.connect database_url
      queue ← new_queue redis_url "stream:webhooks"
      redis_client ← env.open_client redis_url
      listener ← bind_listener
      ok (record {
        repo = db;
        queue = queue;
        router = gateways uuid_text to_lowercase;
        redis_client = redis_client;
        listener = listener;
      })

    -- Where the API starts, a worker that is answered alike starts too, on the database of the API
    -- and the stream that the API fills, and its keys and messages go where the API listens.
    pub start_worker-start_api :
        (api : ApiState env)
        → start_api ≡ ok api
        → start_worker
          ≡ ok (record {
            repo = api.repo;
            queue = api.queue;
            idempotency = api.redis_client;
            realtime = api.redis_client;
          })
    unfolding start_worker start_api new_queue
    start_worker-start_api api h =
        let (url, set, h₁) = given_ok (env.var "DATABASE_URL") "DATABASE_URL missing" _ api h in
        let (db, connected, h₂) = bind_ok (env.connect url) _ api h₁ in
        let (queue, opened, h₃) = bind_ok (new_queue redis_url "stream:webhooks") _ api h₂ in
        let (client, client_opened, h₄) = bind_ok (env.open_client redis_url) _ api h₃ in
        let (listener, listening, h₅) = bind_ok bind_listener _ api h₄ in
        rw (set, connected, opened, client_opened)
          (ap
            (λ a. ok (record {
              repo = a.repo;
              queue = a.queue;
              idempotency = a.redis_client;
              realtime = a.redis_client;
            }))
            (ok_injective _ api h₅))
