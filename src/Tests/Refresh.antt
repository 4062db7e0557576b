-- ===== src/Tests/Refresh.antt =====
-- The refresh of a session.
use bookstore_golang.Base.{
  ◌≡◌, ◌+◌, ok, refl, true, false, some, none, [], ◌∷◌, find, update, any, ℕ_discrete,
}
use bookstore_golang.Base.Text.{codes, Str-discrete, trim, byte_len}
use bookstore_golang.Platform.Redis.{call, redis_get}
use bookstore_golang.Database.{World, UserRow, execute, attempt, on_redis}
use bookstore_golang.Database.Tx.{within_transaction, begin_tx, rollback}
use bookstore_golang.Database.Tx.Atomic.{is_err}
use bookstore_golang.Identity.Status.{UserStatus}
use bookstore_golang.Identity.Entity.{rotate, new_email, SessionStatus-discrete}
use bookstore_golang.Identity.Tokens.{generate_access_token, generate_refresh_token}
use bookstore_golang.Identity.Cache.{get_session}
use bookstore_golang.Identity.Repo.User.{query_get_user_by_id, map_user_row_to_entity}
use bookstore_golang.Identity.Repo.Session.{query_get_by_refresh_token_hash, query_update_session}
use bookstore_golang.Identity.Auth.Refresh.{
  find_session, validate_session, rotate_tx, refresh_token,
}
use bookstore_golang.Identity.Auth.Refreshed.{refresh_token_rolls_back}
use bookstore_golang.Database.Tx.{commit}
use bookstore_golang.Identity.Cache.{delete_session, store_session}
use bookstore_golang.Platform.Redis.{redis_set, redis_del}
use bookstore_golang.Identity.Auth.{TokenOutput, session_ttl}
use bookstore_golang.Identity.Policy.{new_device_policy}
use bookstore_golang.Identity.Auth.Spent.{refresh_token_once}
use bookstore_golang.Tests.Sessions.{two_sessions-IsValid}
use bookstore_golang.Tests.Data.{
  Value, library, store, world, context, service, alices_session, two_sessions,
}

abbrev alices_row : UserRow
alices_row = record {
  id = 2;
  email = codes "a@b.vn";
  full_name = codes "Alice";
  phone = none;
  user_type = codes "customer";
  status = UserStatus.active;
  email_verified_at = some 40;
  last_login_at = none;
  locked_reason = none;
  version = 1;
  created_at = 20;
  updated_at = 40;
}

-- The session is cached and the update of its row fails.
abbrev half_rotated : World store
half_rotated = record (world []) {
  env = record ((world []).env) {
    store = λ k. some (Value.session alices_session, some 999);
    faults = false ∷ false ∷ false ∷ false ∷ true ∷ [];
  };
  db = record two_sessions { users = alices_row ∷ [] };
}

refresh_token_fails :
    is_err (refresh_token library service context (codes "old") half_rotated).0 ≡ true
unfolding refresh_token find_session validate_session rotate_tx rotate within_transaction begin_tx
    rollback get_session redis_get call on_redis execute attempt query_get_user_by_id
    map_user_row_to_entity new_email trim byte_len query_get_by_refresh_token_hash
    query_update_session generate_access_token generate_refresh_token find any update Str-discrete
    SessionStatus-discrete ℕ_discrete
refresh_token_fails = refl

refresh_token_rolls_back_example :
    (refresh_token library service context (codes "old") half_rotated).1.db ≡ half_rotated.db
refresh_token_rolls_back_example =
    refresh_token_rolls_back library service context (codes "old") half_rotated refresh_token_fails

-- The session is cached and no call fails.
abbrev cached : World store
cached = record half_rotated { env = record (half_rotated.env) { faults = [] } }

abbrev tokens : TokenOutput
tokens = record {
  access_token = 2 ∷ 8 ∷ [];
  refresh_token = 2 ∷ 7 ∷ [];
  access_token_expires_at = 105;
  refresh_token_expires_at = 100 + session_ttl new_device_policy;
}

refresh_token_succeeds : (refresh_token library service context (codes "old") cached).0 ≡ ok tokens
unfolding refresh_token find_session validate_session rotate_tx rotate within_transaction begin_tx
    commit get_session redis_get call on_redis execute attempt query_get_user_by_id
    map_user_row_to_entity new_email trim byte_len query_get_by_refresh_token_hash
    query_update_session generate_access_token generate_refresh_token find any update Str-discrete
    SessionStatus-discrete ℕ_discrete delete_session store_session redis_set redis_del
refresh_token_succeeds = refl

-- The old session is still in the cache.
abbrev still_cached : World store
still_cached = record cached {
  db = (refresh_token library service context (codes "old") cached).1.db;
}

refresh_token_once_example :
    is_err (refresh_token library service context (codes "old") still_cached).0 ≡ true
unfolding Str-discrete ℕ_discrete
refresh_token_once_example =
    refresh_token_once library service context (codes "old") 7 cached still_cached refl
      two_sessions-IsValid refresh_token_succeeds refl refl
