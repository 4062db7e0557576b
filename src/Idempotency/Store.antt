-- ===== src/Idempotency/Store.antt =====
-- internal/platform/idempotency/redis_store.go
use bookstore_golang.Base.{
  ℕ, Bool, true, false, Option, none, some, Result, ok, err, Action, pure, fail, ◌>>=◌,
}
use bookstore_golang.Base.Text.{Str}
use bookstore_golang.Errors.{Error, record_not_found, decode_failed}
use bookstore_golang.Platform.Redis.{
  Redis, Codec, Env, redis_get, redis_set, redis_del, redis_set_nx,
}
use bookstore_golang.Idempotency.Record.{
  Record, completed, ReserveDecision, acquired, existing, Response,
}

abbrev or_not_found : {S A : Type 0} → Option A → Action S Error A
or_not_found none = fail record_not_found
or_not_found (some a) = pure a

abbrev or_decode_failed : {S A : Type 0} → Option A → Action S Error A
or_decode_failed none = fail decode_failed
or_decode_failed (some a) = pure a

-- The record with a response: `Complete` from `rec.Status = StatusCompleted` on.
abbrev pub complete_record : Record → Response → ℕ → Record
complete_record rec result now = record rec {
  status = completed;
  completed_at = now;
  response_code = result.status_code;
  response_body = result.body;
  headers = result.headers;
}

module _ {V : Type 0} (R : Redis V) (json : Codec V Record) where
  unfoldable pub get_record : Str → Action (Env R) Error Record
  unfolding redis_get
  get_record key = do
    raw ← redis_get key
    raw ← or_not_found raw
    or_decode_failed (json.decode raw)

  abbrev reserved : Record → Bool → Action (Env R) Error (ReserveDecision × Option Record)
  reserved rec true = pure (acquired, some rec)
  reserved rec false = do found ← get_record rec.key; pure (existing, some found)

  unfoldable pub reserve : Record → ℕ → Action (Env R) Error (ReserveDecision × Option Record)
  unfolding redis_set_nx get_record
  reserve rec ttl = do done ← redis_set_nx rec.key (json.encode rec) ttl; reserved rec done

  -- What `Complete` does with what `Get` returned: a record that is gone is no error.
  abbrev complete_found :
      Str → Response → ℕ → ℕ → Result Error Record → Action (Env R) Error (Unit {0})
  complete_found key result ttl now (ok rec) =
      redis_set key (json.encode (complete_record rec result now)) ttl
  complete_found key result ttl now (err record_not_found) = pure tt
  complete_found key result ttl now (err e) = fail e

  unfoldable pub complete : Str → Response → ℕ → ℕ → Action (Env R) Error (Unit {0})
  unfolding redis_set get_record
  complete key result ttl now e =
      let (r, e') = get_record key e in complete_found key result ttl now r e'

  unfoldable pub release : Str → Action (Env R) Error (Unit {0})
  unfolding redis_del
  release key = redis_del key
