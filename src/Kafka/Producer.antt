-- ===== src/Kafka/Producer.antt =====
-- internal/platform/kafka/producer.go and dlq.go, and the constructor of envelope.go. A call of the
-- writer or the reader that fails has no effect.
use bookstore_golang.Base.{
  ℕ, Bool, true, false, Option, none, some, List, [], ◌∷◌, ◌++◌, ok, err, Action, ◌>>=◌,
}
use bookstore_golang.Base.Int.{ℤ}
use bookstore_golang.Base.Text.{Str, codes}
use bookstore_golang.Errors.{Error, encode_failed, kafka_failed}
use bookstore_golang.Identity.Publisher.{event_key}
use bookstore_golang.Kafka.Message.{Coding, Envelope, RawMessage, DlqEnvelope, build_headers}

-- Kafka as a process meets it, with the state `S` of its handlers: which of the coming calls fail,
-- what was written, which messages were committed, and what it slept, where a
-- time that is not positive is none.
pub record Broker (S : Type 0) : Type 0 where
  pub app : S
  pub faults : List Bool
  pub now : ℕ
  pub written : List RawMessage
  pub committed : List RawMessage
  pub slept : List ℤ

-- Whether the next call fails.
abbrev pub next_fails : List Bool → Bool
next_fails [] = false
next_fails (b ∷ l) = b

abbrev pub later : List Bool → List Bool
later [] = []
later (b ∷ l) = l

module _ {S : Type 0} where
  -- A call that fails, or changes the broker.
  unfoldable pub call_broker : (Broker S → Broker S) → Action (Broker S) Error (Unit {0})
  call_broker f b = elim (next_fails b.faults) [
    | true ↦ (err kafka_failed, record b { faults = later b.faults })
    | false ↦ (ok tt, f (record b { faults = later b.faults }))
  ]

  abbrev pub write_messages : List RawMessage → Action (Broker S) Error (Unit {0})
  write_messages messages = call_broker (λ b. record b { written = b.written ++ messages })

  abbrev pub commit_messages : RawMessage → Action (Broker S) Error (Unit {0})
  commit_messages m = call_broker (λ b. record b { committed = b.committed ++ (m ∷ []) })

  -- `err` where there is no value.
  abbrev pub or_encode_failed : {A : Type 0} → Option A → Action (Broker S) Error A
  or_encode_failed none b = (err encode_failed, b)
  or_encode_failed (some a) b = (ok a, b)

abbrev pub EnvelopeOption : Type 0
EnvelopeOption = Envelope → Envelope

abbrev pub with_trace_id : Str → EnvelopeOption
with_trace_id trace_id e = record e { trace_id = trace_id }

abbrev pub with_correlation_id : Str → EnvelopeOption
with_correlation_id id e = record e { correlation_id = id }

abbrev pub with_causation_id : Str → EnvelopeOption
with_causation_id id e = record e { causation_id = id }

abbrev pub with_actor : Str → ℕ → EnvelopeOption
with_actor actor_type actor_id e = record e { actor_type = actor_type; actor_id = actor_id }

abbrev pub with_id_key : Str → EnvelopeOption
with_id_key key e = record e { idempotency_key = key }

abbrev pub with_schema_version : ℕ → EnvelopeOption
with_schema_version v e = record e { schema_version = v }

unfoldable pub apply_options : List EnvelopeOption → Envelope → Envelope
apply_options [] e = e
apply_options (opt ∷ opts) e = apply_options opts (opt e)

-- `newUUID` is the text of the time.
unfoldable pub new_envelope :
    Coding → Str → Str → Str → ℕ → Str → List EnvelopeOption → ℕ → Envelope
unfolding apply_options
new_envelope l event_type aggregate_type aggregate_id occurred_at payload opts now =
    let event_id = l.time_string now in
    apply_options opts (record {
      event_id = event_id;
      event_type = event_type;
      aggregate_type = aggregate_type;
      aggregate_id = aggregate_id;
      occurred_at = occurred_at;
      produced_at = now;
      trace_id = [];
      correlation_id = [];
      causation_id = [];
      actor_type = [];
      actor_id = 0;
      schema_version = 1;
      idempotency_key = event_id;
      payload = payload;
    })

unfoldable pub dlq_envelope : RawMessage → Str → Str → ℕ → DlqEnvelope
dlq_envelope original reason message now = record {
  original_topic = original.topic;
  original_key = original.key;
  original_payload = original.value;
  original_headers = original.headers;
  failure_reason = reason;
  failure_error = message;
  failed_at = now;
  consumer_group = [];
  attempt = 1;
}

module _ (l : Coding) where
  -- The message of an envelope. Kafka gives the offset.
  unfoldable pub envelope_message : Str → Envelope → Str → RawMessage
  unfolding build_headers
  envelope_message topic e body = record {
    topic = topic;
    offset = 0;
    key = event_key e.aggregate_type e.aggregate_id;
    value = body;
    headers = build_headers l e;
    time = e.produced_at;
  }

  -- The loop of `PublishBatch`: all messages, or nothing.
  unfoldable pub batch_messages : List (Str × Envelope) → Option (List RawMessage)
  unfolding envelope_message
  batch_messages [] = some []
  batch_messages ((topic, e) ∷ messages) =
      let rest = batch_messages messages in
      elim (l.marshal_envelope e) [
        | none ↦ none
        | some body ↦ elim rest [
          | none ↦ none
          | some kmsgs ↦ some (envelope_message topic e body ∷ kmsgs)
        ]
      ]

  -- The message in the dead letter queue.
  unfoldable pub dlq_message : Str → RawMessage → Str → ℕ → Str → RawMessage
  dlq_message dlq_topic original reason now body = record {
    topic = dlq_topic;
    offset = 0;
    key = original.key;
    value = body;
    headers =
        (codes "x-original-topic", original.topic)
        ∷ (codes "x-failure-reason", reason)
        ∷ (codes "x-failed-at", l.rfc3339 now)
        ∷ [];
    time = 0;
  }

module _ {S : Type 0} (l : Coding) where
  unfoldable pub publish_envelope : Str → Envelope → Action (Broker S) Error (Unit {0})
  unfolding envelope_message call_broker
  publish_envelope topic e = do
    body ← or_encode_failed (l.marshal_envelope e)
    write_messages (envelope_message l topic e body ∷ [])

  unfoldable pub publish_batch : List (Str × Envelope) → Action (Broker S) Error (Unit {0})
  unfolding batch_messages call_broker
  publish_batch [] b = (ok tt, b)
  publish_batch (m ∷ messages) b =
      (do kmsgs ← or_encode_failed (batch_messages l (m ∷ messages)); write_messages kmsgs) b

  -- `DLQPublisher.Publish`, with the text of the error.
  unfoldable pub dlq_publish : Str → RawMessage → Str → Str → Action (Broker S) Error (Unit {0})
  unfolding dlq_envelope dlq_message call_broker
  dlq_publish dlq_topic original reason message b =
      (do
        body ← or_encode_failed (l.marshal_dlq (dlq_envelope original reason message b.now))
        write_messages (dlq_message l dlq_topic original reason b.now body ∷ []))
        b
