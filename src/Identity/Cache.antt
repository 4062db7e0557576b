-- ===== src/Identity/Cache.antt =====
-- internal/modules/identity/infra/adapters/redis_session_adapter.go: sessions and one-time tokens in
-- Redis.
pub mod Once
use bookstore_golang.Base.{
  ℕ, ◌*◌, Bool, true, false, Option, none, some, List, [], ◌∷◌, ◌++◌, map, Result, ok, err, Action,
  pure, fail, ◌>>=◌, ◌>>◌,
}
use bookstore_golang.Base.Text.{Str, codes}
use bookstore_golang.Errors.{
  Error, random_failed, decode_failed, verify_token_not_found, reset_token_not_found,
}
use bookstore_golang.Platform.Redis.{
  Redis, Env, call, redis_get, redis_set, redis_del, redis_get_del,
}
use bookstore_golang.Database.{World, on_redis, draw}
use bookstore_golang.Identity.Entity.{Session, hour_ns}
use bookstore_golang.Identity.Library.{Library}

abbrev pub session_prefix : Str
session_prefix = codes "identity:refresh_token:"

abbrev pub reset_password_prefix : Str
reset_password_prefix = codes "identity:reset_password:"

abbrev pub email_verify_prefix : Str
email_verify_prefix = codes "identity:email_verify:"

abbrev pub email_verify_ttl : ℕ
email_verify_ttl = 24 * hour_ns

abbrev or_fail : {S A : Type 0} → Error → Option A → Action S Error A
or_fail e none = fail e
or_fail e (some a) = pure a

-- DEL of several keys is one call.
unfoldable pub del_all : {V : Type 0} (R : Redis V) → List Str → R.State → R.State
del_all R [] s = s
del_all R (k ∷ ks) s = del_all R ks (R.del s k)

module _ {V : Type 0} {R : Redis V} (l : Library V) where
  unfoldable pub generate_secure_token : Action (World R) Error Str
  generate_secure_token = do n ← draw; or_fail random_failed (l.secure_token n)

  unfoldable pub issue_verify_token : ℕ → Action (World R) Error Str
  unfolding generate_secure_token on_redis redis_set
  issue_verify_token user_id = do
    raw_token ← generate_secure_token
    on_redis
        (redis_set (email_verify_prefix ++ raw_token) (l.decimal.encode user_id) email_verify_ttl)
    pure raw_token

  unfoldable pub parse_verify_token : Str → Action (World R) Error ℕ
  unfolding on_redis redis_get_del
  parse_verify_token token = do
    found ← on_redis (redis_get_del (email_verify_prefix ++ token))
    raw ← or_fail verify_token_not_found found
    or_fail decode_failed (l.decimal.decode raw)

  unfoldable pub parse_password_reset_token : Str → Action (World R) Error ℕ
  unfolding on_redis redis_get_del
  parse_password_reset_token raw_token = do
    found ← on_redis (redis_get_del (reset_password_prefix ++ l.hash_token raw_token))
    raw ← or_fail reset_token_not_found found
    or_fail decode_failed (l.decimal.decode raw)

  unfoldable pub store_password_reset_token : Str → ℕ → ℕ → Action (World R) Error (Unit {0})
  unfolding on_redis redis_set
  store_password_reset_token raw_token user_id ttl =
      on_redis
        (redis_set (reset_password_prefix ++ l.hash_token raw_token) (l.decimal.encode user_id) ttl)

  unfoldable pub store_session : Str → Session → ℕ → Action (World R) Error (Unit {0})
  unfolding on_redis redis_set
  store_session refresh_token_hash session ttl =
      on_redis
        (redis_set (session_prefix ++ refresh_token_hash) (l.json_session.encode session) ttl)

  abbrev cached : Option V → Action (World R) Error (Option Session)
  cached none = pure none
  cached (some raw) = do s ← or_fail decode_failed (l.json_session.decode raw); pure (some s)

  -- A miss is no error.
  unfoldable pub get_session : Str → Action (World R) Error (Option Session)
  unfolding on_redis redis_get
  get_session refresh_token_hash = do
    found ← on_redis (redis_get (session_prefix ++ refresh_token_hash))
    cached found

module _ {V : Type 0} {R : Redis V} where
  unfoldable pub delete_session : Str → Action (World R) Error (Unit {0})
  unfolding on_redis redis_del
  delete_session refresh_token_hash = on_redis (redis_del (session_prefix ++ refresh_token_hash))

  unfoldable pub delete_sessions : List Str → Action (World R) Error (Unit {0})
  unfolding on_redis call del_all
  delete_sessions [] = pure tt
  delete_sessions (h ∷ hs) = on_redis (
      call (λ e.
        (ok tt, record e { store = del_all R (map (λ k. session_prefix ++ k) (h ∷ hs)) e.store })))
