-- ===== src/Payments.antt =====
-- approach-1: the payment backend, its API and its worker.
pub mod Models
pub mod Gateway
pub mod Repository
pub mod Redis
pub mod Worker
pub mod Api
pub mod EndToEnd
pub mod Startup
