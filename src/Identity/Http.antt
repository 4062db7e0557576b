-- ===== src/Identity/Http.antt =====
-- internal/modules/identity/http: the middlewares and the handlers.
pub mod Middleware
pub mod Handlers
pub mod Profiles
pub mod Router
