-- ===== src/Outbox/Model.antt =====
-- internal/platform/outbox/model.go and envelope.go. A JSON column is kept as the value that it
-- codes.
use bookstore_golang.Base.{ℕ, Option, List}
use bookstore_golang.Base.Text.{Str}

-- The values that a payload holds under its names.
pub data PayloadValue : Type 0 where
  number : ℕ → PayloadValue
  text : Str → PayloadValue

abbrev pub Payload : Type 0
Payload = List (Str × PayloadValue)

-- Beside the three states of model.go the one that `ClaimPending` writes.
pub data State : Type 0 where
  pending publishing published failed : State

unfoldable pub State-discrete : Discrete State
State-discrete = hlevel

pub record Envelope : Type 0 where
  pub event_id : Str
  pub event_type : Str
  pub aggregate_type : Str
  pub aggregate_id : Option Str
  pub occurred_at : ℕ
  -- 0 is the zero time
  pub produced_at : ℕ
  pub trace_id : Str
  pub correlation_id : Str
  pub causation_id : Str
  pub actor_type : Str
  pub actor_id : Option ℕ
  pub schema_version : ℕ
  pub idempotency_key : Str
  pub payload : Payload

pub record OutboxEvent : Type 0 where
  pub id : ℕ
  pub topic : Str
  pub event_key : Str
  pub aggregate_type : Str
  pub aggregate_id : Option Str
  pub event_type : Str
  pub payload : Envelope
  pub metadata : Option (List (Str × Str))
  pub state : State
  pub created_at : ℕ
  pub published_at : Option ℕ
  pub last_error : Option Str

pub record RecordParams : Type 0 where
  pub topic : Str
  pub event_key : Str
  pub aggregate_type : Str
  pub aggregate_id : Option Str
  pub event_type : Str
  pub occurred_at : ℕ
  pub trace_id : Str
  pub correlation_id : Str
  pub causation_id : Str
  pub actor_type : Str
  pub actor_id : Option ℕ
  pub schema_version : ℕ
  pub idempotency_key : Str
  pub payload : Payload
