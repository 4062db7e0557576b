-- ===== src/Platform/Lock.antt =====
-- internal/platform/redis/lock.go. The token of a lock is a text that package uuid draws.
pub mod Exclusion
use bookstore_golang.Base.{
  ℕ, ◌==◌, nat_eq, if◌then◌else◌, Bool, true, false, Option, none, some, Result, ok, err, Action,
}
use bookstore_golang.Base.Text.{Str, str_eq}
use bookstore_golang.Errors.{Error, unavailable, lock_not_acquired, lock_not_held}
use bookstore_golang.Platform.Redis.{Redis, Env, call, redis_set_nx}

pub record Lock : Type 0 where
  pub key : Str
  pub token : Str
  pub ttl : ℕ

abbrev pub is_token : Option Str → Str → Bool
is_token none token = false
is_token (some v) token = v == token

module _ {R : Redis Str} where
  -- The script of a release, which Redis runs as one step.
  unfoldable pub release_lock_script : Str → Str → Action (Env R) Error ℕ
  unfolding call
  release_lock_script key token = call (λ e.
      if is_token (R.get e.store e.now key) token
      then (ok 1, record e { store = R.del e.store key })
      else (ok 0, e))

  abbrev acquired : Lock → Result Error Bool × Env R → Result Error Lock × Env R
  acquired lock (err e, s) = (err unavailable, s)
  acquired lock (ok false, s) = (err lock_not_acquired, s)
  acquired lock (ok true, s) = (ok lock, s)

  unfoldable pub acquire : Str → Str → ℕ → Action (Env R) Error Lock
  unfolding redis_set_nx
  acquire token key ttl s =
      acquired (record { key = key; token = token; ttl = ttl }) (redis_set_nx key token ttl s)

  abbrev released : Result Error ℕ × Env R → Result Error (Unit {0}) × Env R
  released (err e, s) = (err unavailable, s)
  released (ok n, s) = if n == 0 then (err lock_not_held, s) else (ok tt, s)

  -- Without a lock there is nothing to release.
  unfoldable pub release : Option Lock → Action (Env R) Error (Unit {0})
  unfolding release_lock_script
  release none s = (ok tt, s)
  release (some lock) s = released (release_lock_script lock.key lock.token s)
