-- ===== src/Tests.antt =====
-- The theorems at concrete inputs, at which their hypotheses hold.
mod Data
pub mod Idempotency
pub mod Outbox
pub mod Identity
pub mod Sessions
pub mod Refresh
pub mod Addresses
pub mod Kafka
pub mod Middleware
pub mod Redis
pub mod Http
pub mod Login
pub mod Config
pub mod Group
pub mod Rows
pub mod Routes
pub mod Web
