-- ===== src/Tests/Login.antt =====
-- A login that succeeds.
use bookstore_golang.Base.{
  some, ◌+◌, ◌==◌, ◌≡◌, refl, [], ◌∷◌, nat_eq, ok, find, filter, update, any, count, order_desc,
  insert_desc, ℕ_discrete,
}
use bookstore_golang.Base.Text.{str_eq, Str-discrete, trim, byte_len}
use bookstore_golang.Platform.Redis.{call, redis_set, redis_del}
use bookstore_golang.Database.{World, UserRow, execute, attempt, on_redis}
use bookstore_golang.Identity.Status.{can_login, UserStatus-discrete}
use bookstore_golang.Identity.Entity.{Email, new_email}
use bookstore_golang.Identity.Tokens.{
  generate_refresh_token, generate_access_token, verify_password,
}
use bookstore_golang.Identity.Cache.{store_session, delete_session}
use bookstore_golang.Identity.Repo.User.{map_user_row_to_entity, query_get_user_by_email}
use bookstore_golang.Identity.Repo.Credential.{query_credential_get_by_user_id}
use bookstore_golang.Identity.Repo.Device.{
  query_list_active_device_by_user_id, query_get_device_by_fingerprint, query_upsert_device,
}
use bookstore_golang.Identity.Repo.Session.{query_get_by_device_id, query_upsert_session}
use bookstore_golang.Identity.Auth.Login.{login, enter_device, open_session, drop_old_session}
use bookstore_golang.Identity.Auth.Proven.{Proven, login_ok_password}
use bookstore_golang.Identity.Policy.{new_device_policy}
use bookstore_golang.Identity.Auth.{TokenOutput, session_ttl}
use bookstore_golang.Identity.Auth.Opened.{Opens, login-Opens}
use bookstore_golang.Tests.Data.{store, library, world, context, service, empty_db}
use bookstore_golang.Tests.Identity.{alices_row, alices_credential}
use bookstore_golang.Tests.Sessions.{login_alice}

abbrev with_alice : World store
with_alice = record (world []) {
  db = record empty_db { users = alices_row ∷ []; credentials = alices_credential ∷ [] };
}

login_ok_password_example :
    (email : Email) × (new_email library.unicode library.parse_address login_alice.email ≡ ok email)
    × Proven library login_alice with_alice email
unfolding login enter_device open_session drop_old_session generate_refresh_token
    generate_access_token verify_password store_session delete_session map_user_row_to_entity
    query_get_user_by_email query_credential_get_by_user_id query_list_active_device_by_user_id
    query_get_device_by_fingerprint query_upsert_device query_get_by_device_id query_upsert_session
    new_email trim byte_len execute attempt on_redis redis_set redis_del call find filter update any
    count order_desc insert_desc Str-discrete ℕ_discrete can_login UserStatus-discrete
login_ok_password_example =
    login_ok_password library service context login_alice with_alice refl refl

abbrev tokens : TokenOutput
tokens = record {
  access_token = 2 ∷ 8 ∷ [];
  refresh_token = 2 ∷ 7 ∷ [];
  access_token_expires_at = 105;
  refresh_token_expires_at = 100 + session_ttl new_device_policy;
}

login-Opens_example :
    (email : Email) × (user : UserRow) × (new_email library.unicode library.parse_address
        login_alice.email
      ≡ ok email)
    × (find (λ r. r.email == email.value) with_alice.db.users ≡ some user)
    × Opens library user.id
        (100 + session_ttl new_device_policy)
        tokens
        (login library service context login_alice with_alice).1
unfolding login enter_device open_session drop_old_session generate_refresh_token
    generate_access_token verify_password store_session delete_session map_user_row_to_entity
    query_get_user_by_email query_credential_get_by_user_id query_list_active_device_by_user_id
    query_get_device_by_fingerprint query_upsert_device query_get_by_device_id query_upsert_session
    new_email trim byte_len execute attempt on_redis redis_set redis_del call find filter update any
    count order_desc insert_desc Str-discrete ℕ_discrete can_login UserStatus-discrete
login-Opens_example =
    login-Opens library service context login_alice with_alice {out = tokens} refl refl
