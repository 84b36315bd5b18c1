-- ===== src/Propeller.antt =====
-- approach-2: the gateway that keeps the clients' connections and delivers events to them.
pub mod Channels
pub mod Config
pub mod Error
pub mod Auth
pub mod Metrics
pub mod Action
pub mod Ports
pub mod Store
pub mod Push
pub mod Broker
pub mod Server
pub mod Startup
