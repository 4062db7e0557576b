-- ===== src/Identity/Blacklist.antt =====
-- internal/modules/identity/infra/adapters/redis_blacklist.go
use bookstore_golang.Base.{ℕ, Bool, true, false, Option, none, some, ◌++◌, Action, pure, ◌>>=◌}
use bookstore_golang.Base.Text.{Str, codes}
use bookstore_golang.Errors.{Error}
use bookstore_golang.Platform.Redis.{Redis, redis_get, redis_set}
use bookstore_golang.Database.{World, on_redis}

abbrev pub blacklist_key : Str → Str
blacklist_key jti = codes "blacklist:access_token:" ++ jti

abbrev pub is_some : {A : Type 0} → Option A → Bool
is_some none = false
is_some (some a) = true

module _ {V : Type 0} {R : Redis V} where
  -- With the value that codes "revoked".
  unfoldable pub add_to_blacklist : V → Str → ℕ → Action (World R) Error (Unit {0})
  unfolding on_redis redis_set
  add_to_blacklist revoked jti expiration =
      on_redis (redis_set (blacklist_key jti) revoked expiration)

  -- EXISTS
  unfoldable pub is_token_blacklisted : Str → Action (World R) Error Bool
  unfolding on_redis redis_get
  is_token_blacklisted jti = do
    found ← on_redis (redis_get (blacklist_key jti))
    pure (is_some found)
