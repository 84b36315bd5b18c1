-- ===== src/Propeller/Metrics.antt =====
-- approach-2/src/metrics.rs: counters of 64 bits that wrap around, and their snapshot.
use payment_processing.Common.{ℕ, ◌+◌, ◌-◌, ◌%◌, ◌^◌}

pub record Metrics : Type 0 where
  pub connections : ℕ
  pub messages_published : ℕ
  pub messages_delivered : ℕ
  pub auth_success_total : ℕ
  pub auth_failure_total : ℕ
  pub legacy_header_auth_total : ℕ
  pub topic_subscribe_total : ℕ
  pub topic_unsubscribe_total : ℕ
  pub topic_unsubscribe_error_total : ℕ
  pub active_topic_listeners : ℕ
  pub ws_ping_sent_total : ℕ
  pub ws_pong_received_total : ℕ
  pub ws_keepalive_timeout_total : ℕ
  pub grpc_keepalive_timeout_total : ℕ

-- `Metrics::new`
abbrev pub new : Metrics
new = record {
  connections = 0;
  messages_published = 0;
  messages_delivered = 0;
  auth_success_total = 0;
  auth_failure_total = 0;
  legacy_header_auth_total = 0;
  topic_subscribe_total = 0;
  topic_unsubscribe_total = 0;
  topic_unsubscribe_error_total = 0;
  active_topic_listeners = 0;
  ws_ping_sent_total = 0;
  ws_pong_received_total = 0;
  ws_keepalive_timeout_total = 0;
  grpc_keepalive_timeout_total = 0;
}

-- `AtomicU64::fetch_add` and `AtomicU64::fetch_sub`, by one.
abbrev pub increment : ℕ → ℕ
increment counter = (counter + 1) % 2 ^ 64

abbrev pub decrement : ℕ → ℕ
decrement counter = (counter + (2 ^ 64 - 1)) % 2 ^ 64

pub record MetricsSnapshot : Type 0 where
  pub connections : ℕ
  pub messages_published : ℕ
  pub messages_delivered : ℕ
  pub auth_success_total : ℕ
  pub auth_failure_total : ℕ
  pub legacy_header_auth_total : ℕ
  pub topic_subscribe_total : ℕ
  pub topic_unsubscribe_total : ℕ
  pub topic_unsubscribe_error_total : ℕ
  pub active_topic_listeners : ℕ
  pub ws_ping_sent_total : ℕ
  pub ws_pong_received_total : ℕ
  pub ws_keepalive_timeout_total : ℕ
  pub grpc_keepalive_timeout_total : ℕ

unfoldable pub snapshot : Metrics → MetricsSnapshot
snapshot m = record {
  connections = m.connections;
  messages_published = m.messages_published;
  messages_delivered = m.messages_delivered;
  auth_success_total = m.auth_success_total;
  auth_failure_total = m.auth_failure_total;
  legacy_header_auth_total = m.legacy_header_auth_total;
  topic_subscribe_total = m.topic_subscribe_total;
  topic_unsubscribe_total = m.topic_unsubscribe_total;
  topic_unsubscribe_error_total = m.topic_unsubscribe_error_total;
  active_topic_listeners = m.active_topic_listeners;
  ws_ping_sent_total = m.ws_ping_sent_total;
  ws_pong_received_total = m.ws_pong_received_total;
  ws_keepalive_timeout_total = m.ws_keepalive_timeout_total;
  grpc_keepalive_timeout_total = m.grpc_keepalive_timeout_total;
}
