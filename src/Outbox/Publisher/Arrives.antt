-- ===== src/Outbox/Publisher/Arrives.antt =====
-- An event that the outbox publishes, as a consumer reads it.
use bookstore_golang.Base.{◌≡◌, refl, ◌∙◌, ap, true, some, [], ◌∷◌, ◌++◌, ok, arith}
use bookstore_golang.Base.Text.{Str, str_eq}
use bookstore_golang.Identity.Publisher.{event_key}
use bookstore_golang.Kafka.Message.{Coding, IsCoding, RawMessage, build_headers, extract_metadata}
use bookstore_golang.Kafka.Message as KafkaMessage
use bookstore_golang.Kafka.Message.Metadata.{extract_metadata-build_headers}
use bookstore_golang.Kafka.Producer.{
  Broker, call_broker, new_envelope, apply_options, envelope_message, publish_envelope,
}
use bookstore_golang.Kafka.Handler.{Message}
use bookstore_golang.Kafka.Consumer.{parse_message}
use bookstore_golang.Outbox.Publisher.{
  ReadEnvelope, Json, kafka_envelope, publish, text_or_empty, or_before,
}

module _ (l : Coding) (v : IsCoding l) where
  parse_message-envelope_message :
      (topic : Str) (e : KafkaMessage.Envelope) (body : Str)
      → l.json_canonical e.payload ≡ true
      → l.marshal_envelope e ≡ some body
      → let raw = envelope_message l topic e body in
        let msg : Message = record {
          envelope = e;
          raw = raw;
          trace_id = e.trace_id;
          correlation_id = e.correlation_id;
        } in
        parse_message l raw ≡ some msg
  unfolding parse_message envelope_message
  parse_message-envelope_message topic e body canonical coded =
      rw (v.unmarshal-marshal e body canonical coded, (extract_metadata-build_headers l e).0) refl

  publish_envelope_ok :
      {S : Type 0} (topic : Str) (e : KafkaMessage.Envelope) (b : Broker S) {body : Str}
      → b.faults ≡ []
      → l.marshal_envelope e ≡ some body
      → publish_envelope l topic e b
        ≡ (ok tt, record b { written = b.written ++ (envelope_message l topic e body ∷ []) })
  unfolding publish_envelope call_broker
  publish_envelope_ok topic e b calm coded = ground arith

  or_before_nothing : (s : Str) → or_before s [] ≡ s
  or_before_nothing s = ground arith

  publish_ok :
      {S M : Type 0} (json : Json M) (topic key stored : Str) (b : Broker S) {env : ReadEnvelope M}
      {payload : Str}
      → json.unmarshal stored ≡ some env
      → json.marshal_payload env.payload ≡ some payload
      → publish l json topic key stored b
        ≡ publish_envelope l topic (kafka_envelope l env payload b.now) b
  unfolding publish
  publish_ok json topic key stored b read coded = rw (publish, read, coded) refl

  -- With a coding as encoding/json documents it, when no call of Kafka fails, the stored bytes are
  -- read as an envelope, the payload that was read is written as a text in its canonical form, and
  -- the envelope for Kafka is coded, Publish writes one message to the topic, under the key of the
  -- aggregate, from which the consumer reads the id, type, idempotency key, trace id and
  -- correlation id of the envelope that was read, and that text as the payload.
  pub publish_arrives :
      {S M : Type 0} (json : Json M) (topic key stored : Str) (b : Broker S) {env : ReadEnvelope M}
      {payload body : Str}
      → b.faults ≡ []
      → json.unmarshal stored ≡ some env
      → json.marshal_payload env.payload ≡ some payload
      → l.json_canonical payload ≡ true
      → l.marshal_envelope (kafka_envelope l env payload b.now) ≡ some body
      → let r = publish l json topic key stored b in
        (r.0 ≡ ok tt)
        × ((raw : RawMessage) × (msg : Message) × (r.1.written ≡ b.written ++ (raw ∷ []))
            × (raw.topic ≡ topic)
            × (raw.key ≡ event_key env.aggregate_type (text_or_empty env.aggregate_id))
            × (parse_message l raw ≡ some msg)
            × (msg.envelope.event_id ≡ env.event_id)
            × (msg.envelope.event_type ≡ env.event_type)
            × (msg.envelope.idempotency_key ≡ env.idempotency_key)
            × (msg.envelope.payload ≡ payload)
            × (msg.trace_id ≡ env.trace_id)
            × (msg.correlation_id ≡ env.correlation_id))
  unfolding kafka_envelope envelope_message new_envelope apply_options
  publish_arrives json topic key stored b {env} {payload} {body} calm read coded canonical coded' =
      let e = kafka_envelope l env payload b.now in
      let whole =
        publish_ok json topic key stored b read coded ∙ publish_envelope_ok topic e b calm coded' in
      (
        ap (λ r. r.0) whole,
        (
          envelope_message l topic e body,
          record {
            envelope = e;
            raw = envelope_message l topic e body;
            trace_id = e.trace_id;
            correlation_id = e.correlation_id;
          },
          ap (λ r. r.1.written) whole,
          refl,
          refl,
          parse_message-envelope_message topic e body canonical coded',
          refl,
          refl,
          refl,
          refl,
          or_before_nothing env.trace_id,
          or_before_nothing env.correlation_id,
        ),
      )
