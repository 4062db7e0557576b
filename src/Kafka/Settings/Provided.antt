-- ===== src/Kafka/Settings/Provided.antt =====
-- What the settings of Kafka come to.
use bookstore_golang.Base.{ℕ, ◌*◌, ◌≡◌, [], arith}
use bookstore_golang.Base.Int.{pos}
use bookstore_golang.Base.Text.{Str, str_eq}
use bookstore_golang.Config.Load
use bookstore_golang.Config.Sections.{second}
use bookstore_golang.Kafka.Message.{Coding, RawMessage}
use bookstore_golang.Kafka.Producer.{dlq_message}
use bookstore_golang.Kafka.Settings.{provide_kafka_config}

-- Whatever the settings are, a dead letter has no topic, and the attempts and the pauses between them
-- are the default ones.
provide_kafka_config_defaults :
    (l : Coding) (cfg : Load.Config) (original : RawMessage) (reason : Str) (now : ℕ) (body : Str)
    → let c = provide_kafka_config cfg in
      ((dlq_message l c.dlq_topic original reason now body).topic ≡ [])
      × (c.consumer_max_retries ≡ pos 5)
      × (c.consumer_retry_backoff ≡ pos (1 * second))
unfolding provide_kafka_config dlq_message
provide_kafka_config_defaults l cfg original reason now body =
    (ground arith, ground arith, ground arith)
