-- ===== src/Httpx/Router.antt =====
-- RateLimitMiddleware on a context, and NewRouter of internal/platform/httpx/router.go.
pub mod Answers
use bookstore_golang.Base.{ℕ, Bool, Option, none, some, ◌==◌}
use bookstore_golang.Base.Text.{Str, codes, Unicode}
use bookstore_golang.Config.Others.{CorsConfig}
use bookstore_golang.Platform.Counter.{Counters, CounterEnv}
use bookstore_golang.Platform.RateLimit.{
  RateLimitConfig, Passage, passed, too_many, rate_limit_middleware,
}
use bookstore_golang.Httpx.{
  Page, Handler, Exit, header, error_response, request_id_middleware, recovery_middleware,
  logger_middleware, set_header,
}
use bookstore_golang.Httpx.Cors.{cors_middleware}

-- The handlers work on the counters of Redis and on a state of their own.
module _ {C : Counters} {S : Type 0} (format_int : ℕ → Str) where
  abbrev pub limits : ℕ × ℕ → Page (CounterEnv C × S) → Page (CounterEnv C × S)
  limits (limit, remaining) c =
      header (codes "X-RateLimit-Remaining") (format_int remaining)
        (header (codes "X-RateLimit-Limit") (format_int limit) c)

  abbrev pub on_passage : Handler (CounterEnv C × S) → Passage → Handler (CounterEnv C × S)
  on_passage next (passed none) c = next c
  on_passage next (passed (some l)) c = next (limits l c)
  on_passage next (too_many l) c =
      error_response 429 (codes "RATE_LIMIT_EXCEEDED") (codes "too many requests, please slow down")
        (header (codes "Retry-After") (codes "60") (limits l c))

  unfoldable pub limit_requests :
      RateLimitConfig → Handler (CounterEnv C × S) → Handler (CounterEnv C × S)
  unfolding rate_limit_middleware error_response set_header
  limit_requests cfg next c =
      let r = rate_limit_middleware cfg c.request.client_ip c.app.0 in
      on_passage next r.0 (record c { app = (r.1, c.app.1) })

  -- The chain of the router before a handler.
  unfoldable pub new_router :
      (ℕ → Str)
      → Unicode
      → CorsConfig
      → RateLimitConfig
      → Handler (CounterEnv C × S)
      → Handler (CounterEnv C × S)
  unfolding request_id_middleware recovery_middleware logger_middleware cors_middleware
      limit_requests
  new_router uuid u cors rate_limit handler = request_id_middleware uuid (
      recovery_middleware
        (logger_middleware (cors_middleware u cors (limit_requests rate_limit handler))))
