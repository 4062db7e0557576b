-- ===== src/Kafka/Settings.antt =====
-- internal/platform/kafka/config.go, and ProvideKafkaConfig of internal/bootstrap/providers.go.
pub mod Provided
use bookstore_golang.Base.{ℕ, ◌*◌, Bool, true, false, List, [], ◌∷◌, ◌==◌, if◌then◌else◌}
use bookstore_golang.Base.Int.{ℤ, pos, negsuc}
use bookstore_golang.Base.Text.{Str, codes, str_eq}
use bookstore_golang.Config.Load
use bookstore_golang.Config.Sections.{KafkaConfig, millisecond, second}

pub record Config : Type 0 where
  pub brokers : List Str
  pub client_id : Str
  pub producer_max_retries : ℤ
  pub producer_retry_backoff : ℤ
  pub producer_write_timeout : ℤ
  pub producer_required_acks : ℤ
  pub producer_idempotent : Bool
  pub producer_batch_size : ℤ
  pub producer_linger_ms : ℤ
  pub consumer_group_id : Str
  pub consumer_read_timeout : ℤ
  pub consumer_max_retries : ℤ
  pub consumer_retry_backoff : ℤ
  pub consumer_auto_offset_reset : Str
  pub consumer_enable_auto_commit : Bool
  pub dlq_topic : Str
  pub sasl_username : Str
  pub sasl_password : Str
  pub tls_enabled : Bool

-- -1 acknowledgement is `negsuc 0`.
abbrev pub default_config : Config
default_config = record {
  brokers = codes "localhost:9092" ∷ [];
  client_id = codes "bookstore-backend";
  producer_max_retries = pos 3;
  producer_retry_backoff = pos (500 * millisecond);
  producer_write_timeout = pos (10 * second);
  producer_required_acks = negsuc 0;
  producer_idempotent = true;
  producer_batch_size = pos 1048576;
  producer_linger_ms = pos (5 * millisecond);
  consumer_group_id = codes "bookstore-kafka";
  consumer_read_timeout = pos (10 * second);
  consumer_max_retries = pos 5;
  consumer_retry_backoff = pos (1 * second);
  consumer_auto_offset_reset = codes "earliest";
  consumer_enable_auto_commit = false;
  dlq_topic = [];
  sasl_username = [];
  sasl_password = [];
  tls_enabled = false;
}

abbrev with_brokers : List Str → Config → Config
with_brokers [] c = c
with_brokers (b ∷ bs) c = record c { brokers = b ∷ bs }

abbrev with_client_id : Str → Config → Config
with_client_id s c = if s == [] then c else record c { client_id = s }

abbrev with_consumer_group_id : Str → Config → Config
with_consumer_group_id s c = if s == [] then c else record c { consumer_group_id = s }

unfoldable pub provide_kafka_config : Load.Config → Config
provide_kafka_config cfg =
    with_consumer_group_id cfg.kafka.consumer_group_id
      (with_client_id cfg.kafka.client_id (with_brokers cfg.kafka.brokers default_config))
