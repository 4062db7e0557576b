-- ===== src/Outbox.antt =====
-- internal/platform/outbox: events recorded beside the data that they are about, and sent on later.
pub mod Model
pub mod Recorder
pub mod Dispatcher
pub mod Publisher
