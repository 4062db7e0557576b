-- ===== src/Kafka/Consumer/Lost.antt =====
-- A message that is no JSON.
use bookstore_golang.Base.{◌≡◌, ◌==◌, refl, false, none, [], ◌∷◌, ◌++◌, err, arith}
use bookstore_golang.Base.Text.{Str, codes, str_eq}
use bookstore_golang.Errors.{Error, encode_failed, decode_failed}
use bookstore_golang.Kafka.Message.{Coding, IsCoding, RawMessage}
use bookstore_golang.Kafka.Producer.{Broker, dlq_publish, dlq_envelope}
use bookstore_golang.Kafka.Handler.{Handler}
use bookstore_golang.Kafka.Settings.{Config}
use bookstore_golang.Kafka.Consumer.{parse_message, fetched, running, take_message, consume}
use bookstore_golang.Kafka.Consumer.Taken.{commit_ok}

module _ (l : Coding) (v : IsCoding l) where
  unread : (raw : RawMessage) → l.json_valid raw.value ≡ false → parse_message l raw ≡ none
  unfolding parse_message
  unread raw bad = ground (arith, v.unmarshal_invalid raw.value bad)

  unwritten :
      {S : Type 0} (dlq_topic : Str) (raw : RawMessage) (reason text : Str) (b : Broker S)
      → (raw.value == []) ≡ false
      → l.json_valid raw.value ≡ false
      → dlq_publish l dlq_topic raw reason text b ≡ (err encode_failed, b)
  unfolding dlq_publish dlq_envelope
  unwritten dlq_topic raw reason text b filled bad =
      ground (arith, v.marshal_dlq_invalid (dlq_envelope raw reason text b.now) filled bad)

  -- With a coding as encoding/json documents it, when no call of Kafka fails, a message whose
  -- value is not empty and no JSON is committed without a call of the handler and without a
  -- message in the dead letter queue.
  pub consume_invalid :
      {S : Type 0} (cfg : Config) (message : Error → Str) (h : Handler S) (raw : RawMessage)
      (b : Broker S)
      → b.faults ≡ []
      → (raw.value == []) ≡ false
      → l.json_valid raw.value ≡ false
      → consume l cfg message h (fetched raw ∷ []) b
        ≡ (running, record b { committed = b.committed ++ (raw ∷ []) })
  unfolding consume take_message
  consume_invalid cfg message h raw b calm filled bad =
      rw
        (
          consume,
          take_message,
          unread raw bad,
          unwritten cfg.dlq_topic raw (codes "parse_error") (message decode_failed) b filled bad,
          commit_ok raw b calm,
        )
        refl
