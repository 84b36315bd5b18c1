-- ===== src/Propeller/Startup.antt =====
-- approach-2/src/main.rs up to where it serves, with `RedisPubSub::new`, `RedisKV::new` and the
-- constructors of the handlers. What the libraries answer is an environment.
mod Tests
use payment_processing.Common.{
  ℕ, String, ◌≡◌, refl, ap, sym, ◌∙◌, List, [], Result, ok, err, ◌>>=◌, ◌>>◌, map_err, arith,
  bind_ok, ok_injective,
}
use payment_processing.Propeller.Config.{AppConfig, load, validate}
use payment_processing.Propeller.Config.Validation.{IsUsable, validate_iff}
use payment_processing.Propeller.Metrics
use payment_processing.Propeller.Push.{World}
use payment_processing.Propeller.Broker
use payment_processing.Propeller.Broker.{Reply}
use payment_processing.Propeller.Broker.Redis.{Live}
use payment_processing.Propeller.Server.Entry.{Settings}

-- The configuration file, the Redis client and its connections, of which the number says which
-- attempt it is, and the addresses. A client, a connection, an address and a listener are opaque.
pub record Environment : Type 1 where
  pub Client : Type 0
  pub Connection : Type 0
  pub Address : Type 0
  pub Listener : Type 0
  pub read_settings : String → Result String AppConfig
  pub open_client : String → Result String Client
  pub get_connection : ℕ → Client → Result String Connection
  pub parse_address : String → Result String Address
  pub bind : Address → Result String Listener

-- What the servers run with: the settings of both handlers, where they listen, and the shared state.
pub record Program (env : Environment) (R K : Type 0) : Type 0 where
  pub pubsub_connection : env.Connection
  pub kv_connection : env.Connection
  pub grpc_handler : Settings
  pub ws_state : Settings
  pub grpc_address : env.Address
  pub http_listener : env.Listener
  pub world : World (Live R) K

-- What `GrpcPushHandler::new` and `WsState` are given.
abbrev pub settings_of : AppConfig → Settings
settings_of cfg = record { auth = cfg.auth; client_config = cfg.client; keepalive = cfg.keepalive }

-- The state of a new broker and of new counters, over Redis as it stands.
abbrev pub fresh : {R K : Type 0} → R → K → List Reply → World (Live R) K
fresh redis hashes replies = record {
  pubsub = record { broker = Broker.new; replies = replies; redis = redis };
  kv = hashes;
  metrics = Metrics.new;
}

module _ (env : Environment) {R K : Type 0} (redis : R) (hashes : K) (replies : List Reply) where
  -- `RedisPubSub::new`, without its state.
  unfoldable pub new_pubsub : String → Result String env.Connection
  new_pubsub redis_url = do
    client ← map_err (λ _. "failed to create redis client") (env.open_client redis_url)
    map_err (λ _. "failed to connect to redis") (env.get_connection 0 client)

  -- `main` up to the first `select!`.
  unfoldable pub start : String → Result String (Program env R K)
  unfolding new_pubsub load
  start path = do
    cfg ← load env.read_settings path
    pubsub ← new_pubsub cfg.broker.address
    redis_client ← env.open_client cfg.broker.address
    redis_conn ← env.get_connection 1 redis_client
    grpc_addr ← env.parse_address cfg.grpc.address
    http_addr ← env.parse_address cfg.http.address
    http_listener ← env.bind http_addr
    ok (record {
      pubsub_connection = pubsub;
      kv_connection = redis_conn;
      grpc_handler = settings_of cfg;
      ws_state = settings_of cfg;
      grpc_address = grpc_addr;
      http_listener = http_listener;
      world = fresh redis hashes replies;
    })

  -- What is known of a program that starts.
  pub record IsStarted (path : String) (program : Program env R K) : Type 0 where
    pub cfg : AppConfig
    pub read : env.read_settings path ≡ ok cfg
    pub usable : IsUsable cfg
    pub handlers : (program.grpc_handler ≡ settings_of cfg) × (program.ws_state ≡ settings_of cfg)
    pub state : program.world ≡ fresh redis hashes replies

  load-IsUsable :
      (path : String) (cfg : AppConfig)
      → load env.read_settings path ≡ ok cfg
      → (env.read_settings path ≡ ok cfg) × IsUsable cfg
  unfolding load
  load-IsUsable path cfg h =
      let (found, read, h₁) = bind_ok (env.read_settings path) _ cfg h in
      let (_, valid, h₂) = bind_ok (validate found) _ cfg h₁ in
      let same : found ≡ cfg = cc in (read ∙ ap ok same, (validate_iff cfg).0 (rw⁻¹ same valid))

  -- A program starts only with settings that its file holds and that the service can use, all its
  -- timers positive; its gRPC and its WebSocket handler have the same ones, and its broker and its
  -- counters are new.
  pub start-IsStarted :
      (path : String) (program : Program env R K) → start path ≡ ok program → IsStarted path program
  unfolding start
  start-IsStarted path program h =
      let (cfg, loaded, h₁) = bind_ok (load env.read_settings path) _ program h in
      let (pubsub, _, h₂) = bind_ok (new_pubsub cfg.broker.address) _ program h₁ in
      let (client, _, h₃) = bind_ok (env.open_client cfg.broker.address) _ program h₂ in
      let (connection, _, h₄) = bind_ok (env.get_connection 1 client) _ program h₃ in
      let (grpc, _, h₅) = bind_ok (env.parse_address cfg.grpc.address) _ program h₄ in
      let (http, _, h₆) = bind_ok (env.parse_address cfg.http.address) _ program h₅ in
      let (listener, _, h₇) = bind_ok (env.bind http) _ program h₆ in
      let same = sym (ok_injective _ program h₇) in
      let (read, usable) = load-IsUsable path cfg loaded in
      record {
        cfg = cfg;
        read = read;
        usable = usable;
        handlers = (ap (λ p. p.grpc_handler) same, ap (λ p. p.ws_state) same);
        state = ap (λ p. p.world) same;
      }
