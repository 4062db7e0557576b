-- ===== src/Identity/Repo/User.antt =====
-- internal/modules/identity/infra/postgres/user_repo.go, and `mapUserRowToEntity` of mapper.go.
-- `users` is UNIQUE on email; its trigger sets updated_at.
use bookstore_golang.Base.{
  ℕ, ◌+◌, Bool, not, ◌&&◌, Option, none, some, [], ◌∷◌, ◌++◌, ◌==◌, nat_eq, if◌then◌else◌, Result,
  ok, err, Action, find, update, count, any,
}
use bookstore_golang.Base.Text.{Str, str_eq, Unicode}
use bookstore_golang.Errors.{Error, user_not_found, email_already_exist}
use bookstore_golang.Platform.Redis.{Redis}
use bookstore_golang.Database.{Context, World, UserRow, Statement, execute}
use bookstore_golang.Identity.Status.{UserStatus}
use bookstore_golang.Identity.Entity.{User, Email, new_email, is_some}

-- The columns that the entity takes over; the others are zero in it.
abbrev pub user_of : UserRow → Email → User
user_of r email = record {
  id = r.id;
  email = email;
  full_name = r.full_name;
  phone = r.phone;
  user_type = r.user_type;
  status = r.status;
  email_verified_at = r.email_verified_at;
  last_login_at = none;
  locked_reason = none;
  version = 0;
  created_at = r.created_at;
  updated_at = r.updated_at;
}

unfoldable pub map_user_row_to_entity : Unicode → (Str → Bool) → UserRow → Result Error User
map_user_row_to_entity u parse_address r = elim (new_email u parse_address r.email) [
  | ok email ↦ ok (user_of r email)
  | err e ↦ err e
]

abbrev pub found_user : Unicode → (Str → Bool) → Option UserRow → Result Error User
found_user u parse_address none = err user_not_found
found_user u parse_address (some r) = map_user_row_to_entity u parse_address r

unfoldable pub query_get_user_by_id : Unicode → (Str → Bool) → ℕ → Statement User
query_get_user_by_id u parse_address user_id now id d =
    (found_user u parse_address (find (λ r. r.id == user_id) d.users), d)

unfoldable pub query_get_user_by_email : Unicode → (Str → Bool) → Email → Statement User
query_get_user_by_email u parse_address email now id d =
    (found_user u parse_address (find (λ r. r.email == email.value) d.users), d)

unfoldable pub query_check_exist_email : Email → Statement Bool
query_check_exist_email email now id d = (ok (any (λ r. r.email == email.value) d.users), d)

abbrev pub new_user_row : User → ℕ → ℕ → UserRow
new_user_row user now id = record {
  id = id;
  email = user.email.value;
  full_name = user.full_name;
  phone = user.phone;
  user_type = user.user_type;
  status = user.status;
  email_verified_at = user.email_verified_at;
  last_login_at = none;
  locked_reason = none;
  version = user.version;
  created_at = now;
  updated_at = now;
}

-- The id that RETURNING scans into the entity is the result.
unfoldable pub query_insert_user : User → Statement ℕ
query_insert_user user now id d =
    if any (λ r. r.email == user.email.value) d.users
    then (err email_already_exist, d)
    else (ok id, record d { users = d.users ++ (new_user_row user now id ∷ []) })

unfoldable pub query_update_status : ℕ → UserStatus → Statement (Unit {0})
query_update_status user_id status now id d =
    if count (λ r. r.id == user_id) d.users == 0 then (err user_not_found, d) else (
      ok tt,
      record d {
        users =
            update (λ r. r.id == user_id)
              (λ r. record r { status = status; version = r.version + 1; updated_at = now })
              d.users;
      },
    )

abbrev pub awaits_verification : ℕ → UserRow → Bool
awaits_verification user_id r = r.id == user_id && not (is_some r.email_verified_at)

abbrev pub verified_row : ℕ → ℕ → UserRow → UserRow
verified_row verified_at now r = record r {
  email_verified_at = some verified_at;
  status = UserStatus.active;
  version = r.version + 1;
  updated_at = now;
}

unfoldable pub query_mark_email_verified : ℕ → ℕ → Statement (Unit {0})
query_mark_email_verified user_id verified_at now id d =
    if count (awaits_verification user_id) d.users == 0 then (err user_not_found, d) else (
      ok tt,
      record d {
        users = update (awaits_verification user_id) (verified_row verified_at now) d.users;
      },
    )

-- The methods of `UserRepository`: each runs its statement on the context's executor.
module _ {V : Type 0} {R : Redis V} (c : Context) where
  abbrev pub get_by_id : Unicode → (Str → Bool) → ℕ → Action (World R) Error User
  get_by_id u parse_address user_id = execute c (query_get_user_by_id u parse_address user_id)

  abbrev pub get_by_email : Unicode → (Str → Bool) → Email → Action (World R) Error User
  get_by_email u parse_address email = execute c (query_get_user_by_email u parse_address email)

  abbrev pub exists_by_email : Email → Action (World R) Error Bool
  exists_by_email email = execute c (query_check_exist_email email)

  abbrev pub insert_user : User → Action (World R) Error ℕ
  insert_user user = execute c (query_insert_user user)

  abbrev pub update_status : ℕ → UserStatus → Action (World R) Error (Unit {0})
  update_status user_id status = execute c (query_update_status user_id status)

  abbrev pub mark_email_verified : ℕ → ℕ → Action (World R) Error (Unit {0})
  mark_email_verified user_id verified_at =
      execute c (query_mark_email_verified user_id verified_at)
