-- ===== src/Tests/Sessions.antt =====
-- Sessions, devices, tokens and entities of the identity module.
use bookstore_golang.Base.{
  ◌≤◌, ◌≡◌, ◌↔◌, refl, nat_eq, none, some, [], ◌∷◌, ok, err, any, find, update, arith, ℕ_discrete,
}
use bookstore_golang.Base.Text.{codes, str_eq, Str-discrete, ascii, byte_len}
use bookstore_golang.Errors.{reset_token_not_found}
use bookstore_golang.Platform.Redis.Memory.{memory-IsRedis}
use bookstore_golang.Database.{World}
use bookstore_golang.Identity.Status.{UserStatus}
use bookstore_golang.Identity.Entity.{User, Session, rotate}
use bookstore_golang.Identity.Policy.{validate_password, new_register_policy}
use bookstore_golang.Identity.Policy.Password.{
  Has, counts_upper, counts_lower, counts_digit, validate_password-ok_iff,
}
use bookstore_golang.Identity.Repo.Session.{
  session_status_eq, query_revoke_all_by_user_id, query_list_active_by_user_id,
}
use bookstore_golang.Identity.Repo.Session.Unique.{IsValid}
use bookstore_golang.Identity.Repo.Session.Revocation.{revoke_all-list_active}
use bookstore_golang.Identity.Cache.{store_password_reset_token, parse_password_reset_token}
use bookstore_golang.Identity.Cache.Once.{world_at, parse_reset-store_reset}
use bookstore_golang.Identity.Auth.{LoginCommand}
use bookstore_golang.Identity.Auth.Login.{login}
use bookstore_golang.Identity.Auth.Refresh.{rotate_tx}
use bookstore_golang.Identity.Auth.Limit.{with_limit, login_any_limit}
use bookstore_golang.Identity.Auth.Rotation.{rotate_tx_ok}
use bookstore_golang.Tests.Data.{
  Value, library, store, empty_db, world, context, inside, service, alices_session, two_sessions,
}

abbrev stored : World store
stored = (store_password_reset_token library (codes "t") 2 30 (world [])).1

parse_reset-store_reset_example :
    let r = parse_password_reset_token library (codes "t") (world_at 120 stored) in
    (r.0 ≡ ok 2)
    × ((parse_password_reset_token library (codes "t") (world_at 121 r.1)).0
        ≡ err reset_token_not_found)
parse_reset-store_reset_example =
    parse_reset-store_reset store (memory-IsRedis Value) library
      (record { decode-encode = λ n. refl }) (codes "t") 2 30 120 121 (world []) refl (omega arith)

revoke_all-list_active_example :
    (query_list_active_by_user_id 2 200 0
      (query_revoke_all_by_user_id 2 100 100 0 two_sessions).1).0
    ≡ ok []
revoke_all-list_active_example = revoke_all-list_active 2 100 100 200 0 0 two_sessions (omega arith)

abbrev pub login_alice : LoginCommand
login_alice = record {
  email = codes "a@b.vn";
  password = codes "Secret123";
  device_fingerprint = codes "f";
  device_label = codes "phone";
  ip_address = codes "::1";
  user_agent = [];
}

login_any_limit_example :
    login library (with_limit 0 service) context login_alice (world [])
    ≡ login library service context login_alice (world [])
login_any_limit_example = login_any_limit library service context 0 login_alice (world [])

-- A session that was logged out.
abbrev gone : Session
gone = record alices_session { revoked_at = some 60 }

abbrev gone_world : World store
gone_world = record (world []) { open_tx = some (record empty_db { sessions = gone ∷ [] }) }

validate_password-ok_iff_example :
    (validate_password ascii new_register_policy (codes "Secret123") ≡ ok tt) ↔ (
      (8 ≤ byte_len (codes "Secret123"))
      × (byte_len (codes "Secret123") ≤ 72)
      × Has (counts_upper ascii) (codes "Secret123")
      × Has (counts_lower ascii) (codes "Secret123")
      × Has (counts_digit ascii) (codes "Secret123"))
validate_password-ok_iff_example =
    validate_password-ok_iff ascii new_register_policy (codes "Secret123")

abbrev banned_user : User
banned_user = record {
  id = 2;
  email = record { value = codes "a@b.vn" };
  full_name = [];
  phone = none;
  user_type = codes "customer";
  status = UserStatus.banned;
  email_verified_at = none;
  last_login_at = none;
  locked_reason = none;
  version = 1;
  created_at = 0;
  updated_at = 0;
}

pub two_sessions-IsValid : IsValid 7 two_sessions.sessions
unfolding Str-discrete ℕ_discrete
two_sessions-IsValid = record {
  past = (omega arith, (omega arith, tt));
  apart = (((refl, refl, refl), tt), (tt, tt));
}

rotate_tx_ok_example :
    let r = rotate_tx service (codes "#old") (codes "#new") 100 inside gone_world in
    (r.0 ≡ ok (record (rotate gone (codes "#new") 100) { expired_at = 2592000000000100 }))
    × (r.1.open_tx
        ≡ some (record empty_db {
          sessions =
              record gone {
                refresh_token_hash = codes "#new";
                expired_at = 2592000000000100;
                last_seen_at = 100;
                updated_at = 100;
              }
              ∷ [];
        }))
unfolding find any update Str-discrete ℕ_discrete
rotate_tx_ok_example =
    rotate_tx_ok service (codes "#old") (codes "#new") 100 inside gone_world refl refl refl refl
      refl
