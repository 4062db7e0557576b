-- ===== src/Platform.antt =====
-- The services and libraries that the program runs on.
pub mod Redis
pub mod Lock
pub mod Cache
pub mod Keys
pub mod Counter
pub mod RateLimit
pub mod Health
pub mod Settings
