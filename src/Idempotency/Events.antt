-- ===== src/Idempotency/Events.antt =====
-- internal/platform/idempotency/processed_event_store.go, and `TryProcessEvent` of service.go. The
-- store runs on the pool, so outside every transaction. The key of `processed_events` is
-- (consumer_name, event_id). The metadata come as their JSON, or `none` where they have none, and
-- their column is left out.
pub mod Once
use bookstore_golang.Base.{
  ℕ, Bool, true, false, not, ◌&&◌, ◌==◌, Option, none, some, [], ◌∷◌, ◌++◌, if◌then◌else◌, Result,
  ok, err, Action, guard, fail, ◌>>=◌, ◌>>◌, any,
}
use bookstore_golang.Base.Text.{Str, str_eq, Unicode, trim}
use bookstore_golang.Errors.{Error, missing_consumer_name, missing_event_id, encode_failed}
use bookstore_golang.Platform.Redis.{Redis}
use bookstore_golang.Database.{Context, World, ProcessedEvent, Statement, execute, now_of}

abbrev pub is_event : Str → Str → ProcessedEvent → Bool
is_event consumer_name event_id r = r.0 == consumer_name && r.1 == event_id

-- `ON CONFLICT DO NOTHING`, and whether a row was inserted.
unfoldable pub query_try_mark_processed : Str → Str → ℕ → Statement Bool
query_try_mark_processed consumer_name event_id processed_at now id d =
    if any (is_event consumer_name event_id) d.processed_events then (ok false, d) else (
      ok true,
      record d {
        processed_events = d.processed_events ++ ((consumer_name, event_id, processed_at) ∷ []);
      },
    )

-- The context of a statement on the pool.
abbrev pub pool : Context
pool = record { in_tx = false; request_id = []; idempotency_key = [] }

module _ {V : Type 0} {R : Redis V} where
  unfoldable pub try_mark_processed : Str → Str → ℕ → Option Str → Action (World R) Error Bool
  unfolding query_try_mark_processed
  try_mark_processed consumer_name event_id processed_at none = fail encode_failed
  try_mark_processed consumer_name event_id processed_at (some raw_meta) =
      execute pool (query_try_mark_processed consumer_name event_id processed_at)

  unfoldable pub try_process_event : Unicode → Str → Str → Option Str → Action (World R) Error Bool
  unfolding try_mark_processed
  try_process_event u consumer_name event_id metadata = do
    guard (not (trim u consumer_name == [])) missing_consumer_name
    guard (not (trim u event_id == [])) missing_event_id
    now ← now_of
    try_mark_processed consumer_name event_id now metadata
