-- ===== src/Kafka/Message.antt =====
-- internal/platform/kafka/envelope.go, headers.go and `EventKey` of topic.go. Times are written by
-- package time and numbers by package strconv; JSON is that of encoding/json.
pub mod Metadata
use bookstore_golang.Base.{
  ℕ, Bool, true, false, Option, none, some, List, [], ◌∷◌, ◌++◌, ◌≡◌, ◌==◌, if◌then◌else◌,
}
use bookstore_golang.Base.Text.{Str, codes, str_eq}

-- An aggregate id is empty where there is none; the payload is JSON.
pub record Envelope : Type 0 where
  pub event_id : Str
  pub event_type : Str
  pub aggregate_type : Str
  pub aggregate_id : Str
  pub occurred_at : ℕ
  pub produced_at : ℕ
  pub trace_id : Str
  pub correlation_id : Str
  pub causation_id : Str
  pub actor_type : Str
  pub actor_id : ℕ
  pub schema_version : ℕ
  pub idempotency_key : Str
  pub payload : Str

-- `kafka.Header` and what the program uses of `kafka.Message`.
abbrev pub Header : Type 0
Header = Str × Str

pub record RawMessage : Type 0 where
  pub topic : Str
  pub offset : ℕ
  pub key : Str
  pub value : Str
  pub headers : List Header
  pub time : ℕ

-- dlq.go
pub record DlqEnvelope : Type 0 where
  pub original_topic : Str
  pub original_key : Str
  pub original_payload : Str
  pub original_headers : List Header
  pub failure_reason : Str
  pub failure_error : Str
  pub failed_at : ℕ
  pub consumer_group : Str
  pub attempt : ℕ

-- The packages of Go that code the messages.
pub record Coding : Type 0 where
  pub itoa : ℕ → Str
  pub rfc3339_nano : ℕ → Str
  pub rfc3339 : ℕ → Str
  pub time_string : ℕ → Str
  pub json_valid : Str → Bool
  -- a text that json.Marshal writes as it is
  pub json_canonical : Str → Bool
  pub marshal_envelope : Envelope → Option Str
  pub unmarshal_envelope : Str → Option Envelope
  pub marshal_dlq : DlqEnvelope → Option Str

-- What encoding/json documents: a text that is no JSON is not read, a value with a raw message that
-- is not empty and no JSON is not written (an empty one may be nil, which is written as null), and an envelope whose payload is written as it is is read again.
pub record IsCoding (l : Coding) : Type 0 where
  pub unmarshal_invalid : (s : Str) → l.json_valid s ≡ false → l.unmarshal_envelope s ≡ none
  pub marshal_dlq_invalid :
      (e : DlqEnvelope)
      → (e.original_payload == []) ≡ false
      → l.json_valid e.original_payload ≡ false
      → l.marshal_dlq e ≡ none
  pub unmarshal-marshal :
      (e : Envelope) (s : Str)
      → l.json_canonical e.payload ≡ true
      → l.marshal_envelope e ≡ some s
      → l.unmarshal_envelope s ≡ some e

abbrev pub header_trace_id : Str
header_trace_id = codes "x-trace-id"

abbrev pub header_correlation_id : Str
header_correlation_id = codes "x-correlation-id"

abbrev pub header_causation_id : Str
header_causation_id = codes "x-causation-id"

abbrev pub header_event_type : Str
header_event_type = codes "x-event-type"

abbrev pub header_schema_version : Str
header_schema_version = codes "x-schema-version"

abbrev pub header_produced_at : Str
header_produced_at = codes "x-produced-at"

-- An optional header: left out where its value is empty.
abbrev pub header_unless_empty : Str → Str → List Header
header_unless_empty name value = if value == [] then [] else (name, value) ∷ []

unfoldable pub build_headers : Coding → Envelope → List Header
build_headers l e =
    ((header_event_type, e.event_type)
      ∷ (header_schema_version, l.itoa e.schema_version)
      ∷ (header_produced_at, l.rfc3339_nano e.produced_at)
      ∷ [])
    ++ (header_unless_empty header_trace_id e.trace_id
        ++ (header_unless_empty header_correlation_id e.correlation_id
            ++ header_unless_empty header_causation_id e.causation_id))

pub record MessageMetadata : Type 0 where
  pub trace_id : Str
  pub correlation_id : Str
  pub causation_id : Str
  pub event_type : Str

abbrev pub no_metadata : MessageMetadata
no_metadata = record { trace_id = []; correlation_id = []; causation_id = []; event_type = [] }

-- The `switch` on the name of a header.
unfoldable pub note_header : Header → MessageMetadata → MessageMetadata
note_header (name, value) meta =
    if name == header_trace_id
    then record meta { trace_id = value }
    else if name == header_correlation_id
    then record meta { correlation_id = value }
    else if name == header_causation_id
    then record meta { causation_id = value }
    else if name == header_event_type
    then record meta { event_type = value }
    else meta

unfoldable pub scan_headers : List Header → MessageMetadata → MessageMetadata
unfolding note_header
scan_headers [] meta = meta
scan_headers (h ∷ headers) meta = scan_headers headers (note_header h meta)

unfoldable pub extract_metadata : List Header → MessageMetadata
unfolding scan_headers
extract_metadata headers = scan_headers headers no_metadata

unfoldable pub first_header : Str → List Header → Str
first_header name [] = []
first_header name (h ∷ headers) = if h.0 == name then h.1 else first_header name headers

unfoldable pub extract_trace_id : List Header → Str
unfolding first_header
extract_trace_id headers = first_header header_trace_id headers

unfoldable pub extract_correlation_id : List Header → Str
unfolding first_header
extract_correlation_id headers = first_header header_correlation_id headers
