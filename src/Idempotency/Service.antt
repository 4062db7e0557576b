-- ===== src/Idempotency/Service.antt =====
-- internal/platform/idempotency/service.go
pub mod Laws
pub mod Once
use bookstore_golang.Base.{
  ℕ, ◌+◌, ◌*◌, Bool, true, false, not, ◌&&◌, Option, none, some, [], Action, pure, fail, guard,
  ◌>>=◌, ◌>>◌, ◌==◌, leb, if◌then◌else◌,
}
use bookstore_golang.Base.Text.{Str, str_eq, Unicode, trim}
use bookstore_golang.Errors.{
  Error, missing_key, record_not_found, request_hash_mismatch, request_in_progress,
}
use bookstore_golang.Platform.Redis.{Redis, Codec, Env, clock}
use bookstore_golang.Idempotency.Key.{normalize_scope, build_key}
use bookstore_golang.Idempotency.Store.{get_record, reserve, complete, release}
use bookstore_golang.Idempotency.Record.{
  Record, RecordStatus, in_progress, completed, ReserveDecision, acquired, existing, BeginResult,
  proceed, replay, Response,
}

-- nanoseconds
abbrev pub minute : ℕ
minute = 60 * 1000000000

abbrev pub hour : ℕ
hour = 60 * minute

pub record Config : Type 0 where
  pub in_progress_ttl : ℕ
  pub completed_ttl : ℕ

-- `NewService`: a time to live that is not set gets its default.
unfoldable pub new_config : Config → Config
new_config c = record {
  in_progress_ttl = if leb c.in_progress_ttl 0 then 3 * minute else c.in_progress_ttl;
  completed_ttl = if leb c.completed_ttl 0 then 24 * hour else c.completed_ttl;
}

-- `NewDefaultConfig` of provider.go
unfoldable pub new_default_config : Config
new_default_config = record { in_progress_ttl = 5 * minute; completed_ttl = 24 * hour }

unfoldable pub new_record : Str → Str → Str → ℕ → Record
new_record key scope request_hash now = record {
  key = key;
  scope = scope;
  status = in_progress;
  request_hash = request_hash;
  response_code = 0;
  response_body = [];
  headers = [];
  started_at = now;
  completed_at = 0;
}

-- The `switch` on the status. Beside an error the code also returns the record, which no caller
-- reads.
abbrev begin_status : {S : Type 0} → RecordStatus → Record → Action S Error BeginResult
begin_status completed r = pure (record { decision = replay; found = some r })
begin_status in_progress r = fail request_in_progress

-- What follows on `Reserve`.
abbrev begin_decided :
    {S : Type 0} → ReserveDecision × Option Record → Record → Str → Action S Error BeginResult
begin_decided (acquired, _) rec request_hash =
    pure (record { decision = proceed; found = some rec })
begin_decided (existing, none) rec request_hash = fail record_not_found
begin_decided (existing, some r) rec request_hash =
    if not (r.request_hash == []) && not (request_hash == r.request_hash)
    then fail request_hash_mismatch
    else begin_status r.status r

module _ {V : Type 0} (R : Redis V) (json : Codec V Record) (u : Unicode) (cfg : Config) where
  unfoldable pub begin_http : Str → Str → Str → Action (Env R) Error BeginResult
  unfolding clock new_record reserve
  begin_http scope raw_key request_hash = do
    guard (not (trim u raw_key == [])) missing_key
    let scope' = normalize_scope u scope
    let key = build_key u scope' raw_key
    now ← clock
    let rec = new_record key scope' request_hash now
    decision ← reserve R json rec cfg.in_progress_ttl
    begin_decided decision rec request_hash

  unfoldable pub complete_http : Str → Str → Response → Action (Env R) Error (Unit {0})
  unfolding clock complete
  complete_http scope raw_key result = do
    guard (not (trim u raw_key == [])) missing_key
    now ← clock
    complete R json (build_key u scope raw_key) result cfg.completed_ttl now

  unfoldable pub release_http : Str → Str → Action (Env R) Error (Unit {0})
  unfolding release
  release_http scope raw_key = do
    guard (not (trim u raw_key == [])) missing_key
    release R json (build_key u scope raw_key)

  unfoldable pub get_http : Str → Str → Action (Env R) Error Record
  unfolding get_record
  get_http scope raw_key = do
    guard (not (trim u raw_key == [])) missing_key
    get_record R json (build_key u scope raw_key)
