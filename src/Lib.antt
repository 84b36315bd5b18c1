-- ===== src/Lib.antt =====
-- A model of the two payment prototypes of this repository, with the theorems that make them correct.
--
-- approach-1 is a payment backend: an HTTP API takes orders, opens checkouts at the first gateway
-- that answers, and puts webhooks into a Redis stream; a worker reads the stream, applies each event
-- to the database once, and every five minutes reconciles what is pending.
--
-- Payments/Models       approach-1/crates/domain/src/models.rs
-- Payments/Gateway      approach-1/crates/adapters/src/gateway.rs: `pick_checkout` over any gateways
-- Payments/Repository   approach-1/crates/adapters/src/repository.rs over
--                       approach-1/migrations/0001_init.sql: each method is a `do` block of
--                       statements (Statements) on the tables (Schema) through a connection
--                       (Connection); proofs in Constraints, Inserts, Updates, Settling, History,
--                       Pending and Coverage
-- Payments/Redis        the Redis server as a parameter, and in Memory an instance of it
-- Payments/Worker       approach-1/apps/worker/src/main.rs with idempotency.rs, queue.rs and
--                       realtime.rs of approach-1/crates/adapters/src
--                       (Stream is what Redis keeps of the queue, Polling the loop over it,
--                       Deliveries and Expiry the idempotency key)
-- Payments/Api          approach-1/apps/api/src/main.rs: the handlers, and in Feed the tasks of the WebSockets
-- Payments/EndToEnd     the API and the worker over one database and one stream
-- Payments/Startup      the `main` of both programs of approach-1 up to where they serve
--
-- approach-2, named Propeller, keeps the connections of clients and delivers events to them: a
-- connection authenticates, subscribes to its client's and its device's channel, and may follow
-- topics; publishers send to a client, a device or topics.
--
-- Propeller/Config, Error, Metrics  approach-2/src/config.rs, error.rs and metrics.rs
-- Propeller/Auth        approach-2/src/auth/mod.rs: Bearer, Signature, Claims, Jwt, and the entry
--                       points in Service
-- Propeller/Channels    the channel names of approach-2/src/auth/mod.rs
-- Propeller/Ports       the traits of approach-2/src/broker/mod.rs and approach-2/src/kv/mod.rs
-- Propeller/Broker      approach-2/src/broker/redis_pubsub.rs: the operations on the subscriptions;
--                       Leaks has the steps and what they keep, Delivery the tasks, and Redis the
--                       whole as the broker (Ports) of the push service
-- Propeller/Push        approach-2/src/push: the operations, as actions (Action) on the state of the
--                       broker, of the store and of the counters
-- Propeller/Store       approach-2/src/kv/redis_kv.rs over the hash commands of Redis; Refinement says
--                       what a store keeps, Runs what any calls of it come to
-- Propeller/Server      approach-2/src/server: Messages (with approach-2/proto/push/v1/push.proto),
--                       Entry (who calls, and from which device), the loop of a task (Loop),
--                       Grpc for grpc_handler.rs, with the task of a channel in Grpc/Channel, and
--                       Ws for ws_handler.rs; the Release of each says what the broker keeps
-- Propeller/Startup     approach-2/src/main.rs up to where it serves
--
-- Conventions. A `Uuid` is its number and a time its count of seconds. `Uuid::new_v4` draws from a
-- function that the session holds, at any values. A table is the list of its rows, the newest first;
-- rows that were created at the same second are listed in that order, where SQL leaves it open. A
-- round trip to the database may be served, may fail before the server acts, or may be carried out
-- with its answer lost: the session lists what the environment chooses, and a list that has run out
-- stands for `served`. Transactions run one at a time. A Redis command may answer or fail; a key
-- is kept for the seconds that EXPIRE gave it, which pass between the deliveries of events. The JSON
-- codec, the printed form of a `Uuid` and `to_lowercase` are parameters, and so are SHA-256, base 64,
-- the bytes of a text, the clock, and, in Propeller/Push, the broker and the store. A byte is a
-- number, and the counters and the times of a token are numbers modulo 2 ^ 64. An operation of the
-- broker runs at once, and what Redis answers to it is an argument. A loop over `select!` is a fold
-- over the list of what wakes it, in any order, each with its time in nanoseconds and whether the
-- other end can still be written to; after a turn that breaks, the rest of the list is not looked
-- at. A message that the other end cannot take is lost, as the sources have it.
--
-- Not modelled: the servers, their routes and their shutdown, logging and sleeping; the upgrade of a
-- WebSocket and how full the response stream of a channel is, but that it takes the first message;
-- the JSON text of an event on a WebSocket, of which the topic and the bytes are kept;
-- approach-1/crates/observability, which sets up logging; unit tests but for `build_jwt`. These are
-- calls of libraries without a state or a decision of their own.
pub mod Common
pub mod Payments
pub mod Propeller
