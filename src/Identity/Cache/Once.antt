-- ===== src/Identity/Cache/Once.antt =====
-- One-time tokens: what is stored is read once.
use bookstore_golang.Base.{ℕ, ◌+◌, ◌<◌, ◌≡◌, [], ◌++◌, ==-refl, ok, err, arith}
use bookstore_golang.Base.Text.{Str, str_eq}
use bookstore_golang.Errors.{reset_token_not_found}
use bookstore_golang.Platform.Redis.{Redis, IsRedis, IsCodec, call, redis_set, redis_get_del}
use bookstore_golang.Database.{World, on_redis}
use bookstore_golang.Identity.Library.{Library}
use bookstore_golang.Identity.Cache.{
  store_password_reset_token, parse_password_reset_token, reset_password_prefix,
}

-- The same world at another time.
abbrev pub world_at : {V : Type 0} {R : Redis V} → ℕ → World R → World R
world_at t w = record w { env = record (w.env) { now = t } }

module _ {V : Type 0} (R : Redis V) (redis : IsRedis R) (l : Library V) where
  module _ (lawful : IsCodec l.decimal) where
    -- When no call of Redis fails, a reset token that was stored gives back its user before its
    -- time to live has run out, and a second use of it is refused whenever it comes.
    pub parse_reset-store_reset :
        (token : Str) (user_id ttl t t' : ℕ) (w : World R)
        → w.faults ≡ []
        → t < w.now + ttl
        → let w1 = (store_password_reset_token l token user_id ttl w).1 in
          let r = parse_password_reset_token l token (world_at t w1) in
          (r.0 ≡ ok user_id)
          × ((parse_password_reset_token l token (world_at t' r.1)).0 ≡ err reset_token_not_found)
    unfolding store_password_reset_token parse_password_reset_token on_redis redis_set redis_get_del
        call
    parse_reset-store_reset token user_id ttl t t' w calm h =
        let k = reset_password_prefix ++ l.hash_token token in
        ground (
          arith,
          ==-refl k,
          lawful.decode-encode user_id,
          redis.get-set w.store w.now k (l.decimal.encode user_id) ttl t k,
          redis.get-del (R.set w.store w.now k (l.decimal.encode user_id) ttl) t' k k,
        )
