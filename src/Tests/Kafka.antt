-- ===== src/Tests/Kafka.antt =====
-- Messages of Kafka.
use bookstore_golang.Base.{
  Eq, ℕ, zero, suc, ◌≢◌, ◌≡◌, refl, ◌⊎◌, inl, inr, true, false, not, ◌||◌, ◌==◌, nat_eq,
  if◌then◌else◌, some, none, List, [], ◌∷◌, ◌++◌, ok, All, arith, ℕ_discrete,
}
use bookstore_golang.Base.Int.{pos}
use bookstore_golang.Base.Text.{Str, codes, str_eq, Str-discrete}
use bookstore_golang.Errors.{Error, kafka_failed}
use bookstore_golang.Identity.Publisher.{event_key}
use bookstore_golang.Kafka.Message.{Coding, IsCoding, Envelope, RawMessage, DlqEnvelope}
use bookstore_golang.Kafka.Producer.{Broker, dlq_envelope, new_envelope, apply_options}
use bookstore_golang.Kafka.Handler.{
  Message, Values, Handler, done, failed, panicked, chain, recovery_middleware,
}
use bookstore_golang.Kafka.Settings.{Config, default_config}
use bookstore_golang.Kafka.Consumer.{
  Turn, fetched, fetch_failed, running, crashed, parse_message, handle_with_retry, consume,
}
use bookstore_golang.Kafka.Consumer.Retry.{Tried, handle_with_retry_bounds}
use bookstore_golang.Kafka.Consumer.Taken.{Settled}
use bookstore_golang.Kafka.Consumer.Settled.{consume_settles}
use bookstore_golang.Kafka.Consumer.Lost.{consume_invalid}
use bookstore_golang.Kafka.Consumer.Recovery.{consume-recovery}
use bookstore_golang.Outbox.Publisher.{ReadEnvelope, Json, kafka_envelope, publish}
use bookstore_golang.Outbox.Publisher.Arrives.{publish_arrives}

unfoldable Envelope-discrete : Discrete Envelope
Envelope-discrete = hlevel ℕ_discrete

instance abbrev envelope_eq : Eq Envelope
envelope_eq = record { dec = Envelope-discrete }

abbrev registered : Envelope
registered = record {
  event_id = codes "e1";
  event_type = codes "user.registered";
  aggregate_type = codes "user";
  aggregate_id = codes "2";
  occurred_at = 90;
  produced_at = 100;
  trace_id = codes "t";
  correlation_id = [];
  causation_id = [];
  actor_type = [];
  actor_id = 0;
  schema_version = 1;
  idempotency_key = codes "i";
  payload = codes "{}";
}

-- A coding that knows one envelope, where a text is JSON unless it is a question mark or empty; nil is written as null.
abbrev coding : Coding
coding = record {
  itoa = λ n. n ∷ [];
  rfc3339_nano = λ n. n ∷ [];
  rfc3339 = λ n. n ∷ [];
  time_string = λ n. n ∷ [];
  json_valid = λ s. not (s == [] || s == codes "?");
  json_canonical = λ s. not (s == []);
  marshal_envelope = λ e. if e == registered then some (codes "r") else none;
  unmarshal_envelope = λ s. if s == codes "r" then some registered else none;
  marshal_dlq = λ e.
      if e.original_payload == []
      then some (codes "null")
      else if e.original_payload == codes "?"
      then none
      else some e.original_payload;
}

coding_unmarshal_invalid :
    (s : Str) → coding.json_valid s ≡ false → coding.unmarshal_envelope s ≡ none
coding_unmarshal_invalid s h = ground arith

coding_marshal_dlq_invalid :
    (e : DlqEnvelope)
    → (e.original_payload == []) ≡ false
    → coding.json_valid e.original_payload ≡ false
    → coding.marshal_dlq e ≡ none
coding_marshal_dlq_invalid e filled h = ground arith

coding_unmarshal-marshal :
    (e : Envelope) (s : Str)
    → coding.json_canonical e.payload ≡ true
    → coding.marshal_envelope e ≡ some s
    → coding.unmarshal_envelope s ≡ some e
coding_unmarshal-marshal e s c h = ground arith

coding-IsCoding : IsCoding coding
coding-IsCoding = record {
  unmarshal_invalid = coding_unmarshal_invalid;
  marshal_dlq_invalid = coding_marshal_dlq_invalid;
  unmarshal-marshal = coding_unmarshal-marshal;
}

-- A handler that counts its calls, and whose first two fail.
abbrev third_time : Handler ℕ
third_time c msg zero = (failed kafka_failed, 1)
third_time c msg (suc zero) = (failed kafka_failed, 2)
third_time c msg (suc (suc n)) = (done, suc (suc (suc n)))

abbrev cfg : Config
cfg = record default_config { consumer_retry_backoff = pos 10; dlq_topic = codes "dlq" }

abbrev no_text : Error → Str
no_text e = []

abbrev raw_of_body : ℕ → Str → RawMessage
raw_of_body offset body = record {
  topic = codes "notification.commands.v1";
  offset = offset;
  key = codes "user:2";
  value = body;
  headers = [];
  time = 100;
}

abbrev readable : RawMessage
readable = raw_of_body 7 (codes "r")

abbrev unreadable : RawMessage
unreadable = raw_of_body 8 (codes "x")

abbrev no_json : RawMessage
no_json = raw_of_body 9 (codes "?")

abbrev quiet : Broker ℕ
quiet = record { app = 0; faults = []; now = 100; written = []; committed = []; slept = [] }

abbrev about_registered : Message
about_registered = record {
  envelope = registered;
  raw = readable;
  trace_id = [];
  correlation_id = [];
}

handle_with_retry_bounds_example :
    Tried third_time [] about_registered
      (pos 10)
      5
      0
      quiet
      (handle_with_retry cfg third_time [] about_registered quiet)
handle_with_retry_bounds_example = handle_with_retry_bounds third_time [] about_registered cfg quiet

-- A handler that keeps the offsets of what it has handled, and fails on the first time.
abbrev keeper : Handler (List ℕ)
keeper c msg [] = (failed kafka_failed, 0 ∷ [])
keeper c msg (n ∷ l) = (done, msg.raw.offset ∷ n ∷ l)

unfoldable KeptAt : ℕ → List ℕ → Type 0
KeptAt n [] = ⊥
KeptAt n (m ∷ l) = (n ≡ m) ⊎ KeptAt n l

abbrev Kept : RawMessage → List ℕ → Type 0
Kept raw l = KeptAt raw.offset l

keeper_keeps :
    (c : Values) (msg : Message) (s : List ℕ) (raw : RawMessage)
    → Kept raw s
    → Kept raw (keeper c msg s).1
unfolding KeptAt
keeper_keeps c msg [] raw k = absurd k
keeper_keeps c msg (n ∷ l) raw k = inr k

keeper_success :
    (c : Values) (msg : Message) (s : List ℕ)
    → (keeper c msg s).0 ≡ done
    → Kept msg.raw (keeper c msg s).1
unfolding KeptAt
keeper_success c msg [] e = absurd (cc)
keeper_success c msg (n ∷ l) e = inl refl

abbrev empty_broker : Broker (List ℕ)
empty_broker = record { app = []; faults = []; now = 100; written = []; committed = []; slept = [] }

abbrev three_turns : List Turn
three_turns = fetched readable ∷ fetch_failed ∷ fetched unreadable ∷ []

consume_settles_example :
    let r = consume coding cfg no_text keeper three_turns empty_broker in
    All (Settled coding cfg no_text keeper Kept r.1) r.1.committed
    × (r.0 ≡ running → r.1.committed ≡ readable ∷ unreadable ∷ [])
unfolding Str-discrete ℕ_discrete dlq_envelope
consume_settles_example =
    consume_settles coding cfg no_text keeper Kept keeper_keeps keeper_success 5 three_turns
      empty_broker refl refl
      (λ reason text now. (codes "r", refl), (λ reason text now. (codes "x", refl), tt)) tt

consume_invalid_example :
    consume coding cfg no_text third_time (fetched no_json ∷ []) quiet
    ≡ (running, record quiet { committed = no_json ∷ [] })
unfolding Str-discrete ℕ_discrete
consume_invalid_example =
    consume_invalid coding coding-IsCoding cfg no_text third_time no_json quiet refl refl refl

-- A handler that always panics.
abbrev panics : Handler ℕ
panics c msg n = (panicked, n)

consume-recovery_example :
    (consume coding cfg no_text
      (chain (recovery_middleware kafka_failed ∷ []) panics)
      (fetched readable ∷ [])
      quiet).0
    ≢ crashed
consume-recovery_example =
    consume-recovery coding cfg no_text kafka_failed [] panics (fetched readable ∷ []) quiet

abbrev stored : ReadEnvelope ℕ
stored = record {
  event_id = codes "e1";
  event_type = codes "user.registered";
  aggregate_type = codes "user";
  aggregate_id = some (codes "2");
  occurred_at = 90;
  produced_at = 0;
  trace_id = codes "t";
  correlation_id = [];
  causation_id = [];
  actor_type = [];
  actor_id = none;
  schema_version = 1;
  idempotency_key = codes "i";
  payload = 3;
}

-- A coding of one envelope, whose payload is one text.
abbrev stored_json : Json ℕ
stored_json = record {
  unmarshal = λ s. if s == codes "s" then some stored else none;
  marshal_payload = λ p. some (codes "{}");
}

publish_arrives_example :
    let r = publish coding stored_json (codes "topic") [] (codes "s") quiet in
    (r.0 ≡ ok tt)
    × ((raw : RawMessage) × (msg : Message) × (r.1.written ≡ [] ++ (raw ∷ []))
        × (raw.topic ≡ codes "topic")
        × (raw.key ≡ event_key (codes "user") (codes "2"))
        × (parse_message coding raw ≡ some msg)
        × (msg.envelope.event_id ≡ codes "e1")
        × (msg.envelope.event_type ≡ codes "user.registered")
        × (msg.envelope.idempotency_key ≡ codes "i")
        × (msg.envelope.payload ≡ codes "{}")
        × (msg.trace_id ≡ codes "t")
        × (msg.correlation_id ≡ []))
unfolding Str-discrete ℕ_discrete Envelope-discrete kafka_envelope new_envelope apply_options
publish_arrives_example =
    publish_arrives coding coding-IsCoding stored_json (codes "topic") [] (codes "s") quiet refl
      refl refl refl refl
