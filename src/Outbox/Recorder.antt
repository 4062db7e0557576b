-- ===== src/Outbox/Recorder.antt =====
-- internal/platform/outbox/service.go, and `Insert` of postgres_repository.go.
use bookstore_golang.Base.{
  ℕ, Bool, true, false, not, ◌||◌, Option, none, some, List, [], ◌∷◌, ◌++◌, ◌==◌, if◌then◌else◌, ok,
  err, Action, ◌>>=◌,
}
use Prim.Native.String.{String}
use bookstore_golang.Base.Text.{Str, codes, str_eq}
use bookstore_golang.Errors.{Error, check_violation}
use bookstore_golang.Platform.Redis.{Redis}
use bookstore_golang.Database.{Context, World, Statement, execute, now_of, draw}
use bookstore_golang.Outbox.Model.{Envelope, OutboxEvent, RecordParams, State, pending, publishing}

abbrev entry : String → Str → List (Str × Str) → List (Str × Str)
entry name value rest = if value == [] then rest else (codes name, value) ∷ rest

-- The metadata column: the trace fields that are set, and nothing if none is.
unfoldable pub metadata_of : RecordParams → Option (List (Str × Str))
metadata_of p =
    if not (p.trace_id == []) || (not (p.correlation_id == []) || not (p.causation_id == []))
    then some (
        entry "trace_id" p.trace_id
          (entry "correlation_id" p.correlation_id (entry "causation_id" p.causation_id [])))
    else none

unfoldable pub envelope_of : Str → RecordParams → Envelope
envelope_of event_id p = record {
  event_id = event_id;
  event_type = p.event_type;
  aggregate_type = p.aggregate_type;
  aggregate_id = p.aggregate_id;
  occurred_at = p.occurred_at;
  produced_at = 0;
  trace_id = p.trace_id;
  correlation_id = p.correlation_id;
  causation_id = p.causation_id;
  actor_type = p.actor_type;
  actor_id = p.actor_id;
  schema_version = p.schema_version;
  idempotency_key = p.idempotency_key;
  payload = p.payload;
}

unfoldable pub event_of : Str → RecordParams → ℕ → OutboxEvent
unfolding envelope_of metadata_of
event_of event_id p now = record {
  id = 0;
  topic = p.topic;
  event_key = p.event_key;
  aggregate_type = p.aggregate_type;
  aggregate_id = p.aggregate_id;
  event_type = p.event_type;
  payload = envelope_of event_id p;
  metadata = metadata_of p;
  state = pending;
  created_at = now;
  published_at = none;
  last_error = none;
}

-- The CHECK of migration 000007 on the column `state`.
abbrev pub state_allowed : State → Bool
state_allowed publishing = false
state_allowed _ = true

unfoldable pub query_insert_event : OutboxEvent → Statement (Unit {0})
query_insert_event e now id d =
    if state_allowed e.state
    then (ok tt, record d { outbox_events = d.outbox_events ++ (record e { id = id } ∷ []) })
    else (err check_violation, d)

module _ {V : Type 0} {R : Redis V} (uuid : ℕ → Str) (c : Context) where
  unfoldable pub record_event : RecordParams → Action (World R) Error (Unit {0})
  unfolding event_of query_insert_event
  record_event p = do
    n ← draw
    now ← now_of
    execute c (query_insert_event (event_of (uuid n) p now))
