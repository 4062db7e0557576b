-- ===== src/Idempotency.antt =====
-- internal/platform/idempotency: a request that carries a key is run once, and its response is
-- replayed to the requests that repeat it.
pub mod Key
pub mod Record
pub mod Store
pub mod Service
pub mod Events
pub mod Middleware
