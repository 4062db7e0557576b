-- ===== src/Platform/Cache.antt =====
-- internal/platform/redis/cache.go, and Marshal and Unmarshal of errors.go, which are JSON.
pub mod Kept
use bookstore_golang.Base.{ℕ, Option, none, some, List, [], ◌∷◌, Result, ok, err, Action}
use bookstore_golang.Base.Text.{Str}
use bookstore_golang.Errors.{Error, unavailable, cache_miss, encode_failed, decode_failed}
use bookstore_golang.Platform.Redis.{Redis, Env, call, redis_get, redis_set}
use bookstore_golang.Platform.RateLimit.{or_unavailable}

-- JSON of a type of values, of which not all need have one.
pub record Json (V A : Type 0) : Type 0 where
  pub marshal : A → Option V
  pub unmarshal : V → Option A

abbrev pub read_value : {A : Type 0} → Option A → Result Error A
read_value none = err decode_failed
read_value (some a) = ok a

module _ {V A : Type 0} {R : Redis V} (json : Json V A) where
  abbrev pub read_found : Result Error (Option V) × Env R → Result Error A × Env R
  read_found (err e, s) = (err unavailable, s)
  read_found (ok none, s) = (err cache_miss, s)
  read_found (ok (some b), s) = (read_value (json.unmarshal b), s)

  -- `Cache.Get`
  unfoldable pub get_cached : Str → Action (Env R) Error A
  unfolding redis_get
  get_cached key s = read_found (redis_get key s)

  abbrev pub write_value : Str → ℕ → Option V → Action (Env R) Error (Unit {0})
  unfolding redis_set
  write_value key ttl none s = (err encode_failed, s)
  write_value key ttl (some b) s = or_unavailable (redis_set key b ttl) s

  -- `Cache.Set`
  unfoldable pub set_cached : Str → A → ℕ → Action (Env R) Error (Unit {0})
  set_cached key value ttl = write_value key ttl (json.marshal value)

abbrev pub del_all : {V : Type 0} (R : Redis V) → List Str → R.State → R.State
del_all R [] s = s
del_all R (key ∷ keys) s = del_all R keys (R.del s key)

module _ {V : Type 0} {R : Redis V} where
  -- DEL of several keys, which is one command.
  unfoldable pub redis_del_all : List Str → Action (Env R) Error (Unit {0})
  unfolding call
  redis_del_all keys = call (λ e. (ok tt, record e { store = del_all R keys e.store }))

  -- `Cache.Delete`: without a key no command is sent.
  unfoldable pub delete_cached : List Str → Action (Env R) Error (Unit {0})
  unfolding redis_del_all
  delete_cached [] s = (ok tt, s)
  delete_cached (key ∷ keys) s = or_unavailable (redis_del_all (key ∷ keys)) s
