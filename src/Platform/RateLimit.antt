-- ===== src/Platform/RateLimit.antt =====
-- internal/platform/redis/ratelimit.go and quota.go, and internal/platform/httpx/ratelimit.go.
pub mod Window
use bookstore_golang.Base.{
  ℕ, ◌+◌, ◌*◌, ◌-◌, not, ◌&&◌, ◌==◌, nat_eq, ltb, leb, if◌then◌else◌, Bool, true, false, Option,
  none, some, Result, ok, err, Action, pure, ◌>>=◌, ◌>>◌, ◌++◌,
}
use bookstore_golang.Base.Text.{Str, codes}
use bookstore_golang.Errors.{Error, unavailable}
use bookstore_golang.Platform.Counter.{
  Count, Counters, CounterEnv, redis_incr, redis_expire, redis_ttl, redis_get_count,
}

-- Nothing is left of the time where the key has no end.
pub record RateLimitResult : Type 0 where
  pub allowed : Bool
  pub count : ℕ
  pub remaining : ℕ
  pub reset_in : Option ℕ

-- `if err != nil { return ErrUnavailable }`
abbrev pub mark_unavailable : {S A : Type 0} → Result Error A × S → Result Error A × S
mark_unavailable (ok a, s) = (ok a, s)
mark_unavailable (err e, s) = (err unavailable, s)

abbrev pub or_unavailable : {S A : Type 0} → Action S Error A → Action S Error A
or_unavailable m s = mark_unavailable (m s)

module _ {C : Counters} where
  -- `if n == 1 { … }`
  abbrev pub start_window : Str → ℕ → Bool → Action (CounterEnv C) Error (Unit {0})
  start_window key window first =
      if first then or_unavailable (redis_expire key window) else pure tt

  unfoldable pub allow : Str → ℕ → ℕ → Action (CounterEnv C) Error RateLimitResult
  unfolding redis_incr redis_expire redis_ttl
  allow key limit window = do
    n ← or_unavailable (redis_incr key)
    start_window key window (n == 1)
    ttl ← or_unavailable (redis_ttl key)
    pure (record { allowed = leb n limit; count = n; remaining = limit - n; reset_in = ttl })

  -- `QuotaStore.Increment`
  unfoldable pub increment : Str → ℕ → Action (CounterEnv C) Error ℕ
  unfolding redis_incr redis_expire
  increment key ttl = do
    n ← or_unavailable (redis_incr key)
    start_window key ttl (n == 1 && ltb 0 ttl)
    pure n

  abbrev count_or_unavailable : Option Count → Action (CounterEnv C) Error ℕ
  count_or_unavailable none e = (err unavailable, e)
  count_or_unavailable (some (n, _)) e = (ok n, e)

  -- `QuotaStore.Get`
  unfoldable pub get_quota : Str → Action (CounterEnv C) Error ℕ
  unfolding redis_get_count
  get_quota key = do c ← or_unavailable (redis_get_count key); count_or_unavailable c

pub record RateLimitConfig : Type 0 where
  pub enabled : Bool
  pub request_per_minute : ℕ

-- What the middleware does with a request: it passes it on, with the limit and the rest of it if
-- they were read, or refuses it.
pub data Passage : Type 0 where
  passed : Option (ℕ × ℕ) → Passage
  too_many : ℕ × ℕ → Passage

-- nanoseconds
abbrev pub minute : ℕ
minute = 60 * 1000000000

module _ {C : Counters} where
  abbrev after_incr : Str → ℕ → Result Error ℕ × CounterEnv C → Passage × CounterEnv C
  after_incr key limit (err e, s) = (passed none, s)
  after_incr key limit (ok n, s) =
      let s' = if n == 1 then (redis_expire key minute s).1 else s in
      if ltb limit n
      then (too_many (limit, limit - n), s')
      else (passed (some (limit, limit - n)), s')

  unfoldable pub rate_limit_middleware :
      RateLimitConfig → Str → CounterEnv C → Passage × CounterEnv C
  unfolding redis_incr redis_expire
  rate_limit_middleware cfg client_ip s =
      if cfg.enabled
      then after_incr (codes "rate:global:" ++ client_ip) cfg.request_per_minute
          (redis_incr (codes "rate:global:" ++ client_ip) s)
      else (passed none, s)
