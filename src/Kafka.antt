-- ===== src/Kafka.antt =====
-- internal/platform/kafka: envelopes and headers, the producer with its dead letter queue, the
-- middlewares and the consumer.
pub mod Message
pub mod Producer
pub mod Settings
pub mod Handler
pub mod Consumer
pub mod Topics
pub mod Group
