-- ===== src/Outbox/Publisher.antt =====
-- internal/platform/outbox/publisher.go. The bytes of the stored envelope are read and its payload is
-- written by encoding/json, which is a parameter.
pub mod Arrives
use bookstore_golang.Base.{
  ℕ, Option, none, some, List, [], ◌∷◌, ◌==◌, if◌then◌else◌, Result, ok, err, Action, ◌>>=◌,
}
use bookstore_golang.Base.Text.{Str, str_eq}
use bookstore_golang.Errors.{Error, decode_failed}
use bookstore_golang.Kafka.Message as KafkaMessage
use bookstore_golang.Kafka.Message.{Coding}
use bookstore_golang.Kafka.Producer.{
  Broker, or_encode_failed, new_envelope, with_schema_version, with_id_key, publish_envelope,
}

-- `Envelope` as it is read from JSON: `M` are the values of `map[string]any`, whose numbers are
-- floating-point numbers.
pub record ReadEnvelope (M : Type 0) : Type 0 where
  pub event_id : Str
  pub event_type : Str
  pub aggregate_type : Str
  pub aggregate_id : Option Str
  pub occurred_at : ℕ
  pub produced_at : ℕ
  pub trace_id : Str
  pub correlation_id : Str
  pub causation_id : Str
  pub actor_type : Str
  pub actor_id : Option ℕ
  pub schema_version : ℕ
  pub idempotency_key : Str
  pub payload : M

-- `json.Unmarshal` of an envelope, and `json.Marshal` of its payload.
pub record Json (M : Type 0) : Type 0 where
  pub unmarshal : Str → Option (ReadEnvelope M)
  pub marshal_payload : M → Option Str

-- A pointer read, with the zero value where it is nil.
abbrev pub text_or_empty : Option Str → Str
text_or_empty none = []
text_or_empty (some s) = s

abbrev pub number_or : ℕ → Option ℕ → ℕ
number_or before none = before
number_or before (some n) = n

-- `if s != "" { field = s }`
abbrev pub or_before : Str → Str → Str
or_before s before = if s == [] then before else s

-- The envelope for Kafka, at the time of its sending.
unfoldable pub kafka_envelope :
    {M : Type 0} → Coding → ReadEnvelope M → Str → ℕ → KafkaMessage.Envelope
unfolding new_envelope
kafka_envelope l env payload now =
    let e =
      new_envelope l env.event_type env.aggregate_type (text_or_empty env.aggregate_id)
        env.occurred_at payload
        (with_schema_version env.schema_version ∷ with_id_key env.idempotency_key ∷ []) now in
    record e {
      produced_at = now;
      event_id = env.event_id;
      idempotency_key = env.idempotency_key;
      trace_id = or_before env.trace_id e.trace_id;
      correlation_id = or_before env.correlation_id e.correlation_id;
      causation_id = or_before env.causation_id e.causation_id;
      actor_type = or_before env.actor_type e.actor_type;
      actor_id = if env.actor_type == [] then e.actor_id else number_or e.actor_id env.actor_id;
    }

module _ {S M : Type 0} (l : Coding) (json : Json M) where
  abbrev pub or_decode_failed : {A : Type 0} → Option A → Action (Broker S) Error A
  or_decode_failed none b = (err decode_failed, b)
  or_decode_failed (some a) b = (ok a, b)

  -- The key is not used.
  unfoldable pub publish : Str → Str → Str → Action (Broker S) Error (Unit {0})
  unfolding kafka_envelope publish_envelope
  publish topic key payload b =
      (do
        env ← or_decode_failed (json.unmarshal payload)
        payload_bytes ← or_encode_failed (json.marshal_payload env.payload)
        publish_envelope l topic (kafka_envelope l env payload_bytes b.now))
        b
