-- ===== src/Identity/Repo/Session.antt =====
-- internal/modules/identity/infra/postgres/session_repo.go. `user_sessions` is UNIQUE on
-- (user_id, device_id) and on refresh_token_hash; its trigger sets updated_at.
pub mod Revocation
pub mod Unique
pub mod Upserted
use bookstore_golang.Base.{
  ℕ, Bool, true, false, not, ◌&&◌, ◌||◌, Option, none, some, List, [], ◌∷◌, ◌++◌, ◌==◌, Eq, nat_eq,
  ltb, leb, if◌then◌else◌, Result, ok, err, Action, filter, find, update, count, any, order_desc,
}
use bookstore_golang.Base.Text.{Str, str_eq}
use bookstore_golang.Errors.{Error, session_not_found, unique_violation}
use bookstore_golang.Platform.Redis.{Redis}
use bookstore_golang.Database.{Context, World, Db, Statement, execute}
use bookstore_golang.Identity.Entity.{
  Session, SessionStatus, SessionStatus-discrete, is_some, is_revoked,
}

instance abbrev pub session_status_eq : Eq SessionStatus
session_status_eq = record { dec = SessionStatus-discrete }

abbrev pub is_of : ℕ → ℕ → Session → Bool
is_of user_id device_id s = s.user_id == user_id && s.device_id == device_id

abbrev pub has_hash : Str → Session → Bool
has_hash hash s = s.refresh_token_hash == hash

abbrev or_session_not_found : Option Session → Result Error Session
or_session_not_found none = err session_not_found
or_session_not_found (some s) = ok s

-- The columns that `queryGetByDeviceID` does not select are zero.
abbrev partial_row : Session → Session
partial_row s = record s {
  revoked_at = none;
  revoked_reason = none;
  created_at = 0;
  updated_at = 0;
}

unfoldable pub query_get_by_device_id : ℕ → ℕ → Statement Session
query_get_by_device_id user_id device_id now id d = (
  elim (find (λ s. is_of user_id device_id s && not (is_revoked s)) d.sessions) [
    | none ↦ err session_not_found
    | some s ↦ ok (partial_row s)
  ],
  d,
)

-- The columns that a conflict overwrites.
abbrev pub overwrite : Session → ℕ → Session → Session
overwrite new now s = record s {
  refresh_token_hash = new.refresh_token_hash;
  session_status = new.session_status;
  expired_at = new.expired_at;
  ip_address = new.ip_address;
  user_agent = new.user_agent;
  last_seen_at = new.last_seen_at;
  revoked_at = none;
  updated_at = now;
}

abbrev pub inserted_row : Session → ℕ → ℕ → Session
inserted_row s now id = record s {
  id = id;
  revoked_at = none;
  revoked_reason = none;
  created_at = now;
  updated_at = now;
}

-- The `RETURNING` columns, scanned into the entity.
abbrev returned : Session → Session → Session
returned s row = record s { id = row.id; created_at = row.created_at; updated_at = row.updated_at }

abbrev pub upsert_on_conflict : Session → ℕ → ℕ → Db → Option Session → Result Error Session × Db
upsert_on_conflict s now id d none =
    let row = inserted_row s now id in
    (ok (returned s row), record d { sessions = d.sessions ++ (row ∷ []) })
upsert_on_conflict s now id d (some old) = (
  ok (returned s (overwrite s now old)),
  record d { sessions = update (is_of s.user_id s.device_id) (overwrite s now) d.sessions },
)

unfoldable pub query_upsert_session : Session → Statement Session
query_upsert_session s now id d =
    if any (λ r. has_hash s.refresh_token_hash r && not (is_of s.user_id s.device_id r)) d.sessions
    then (err unique_violation, d)
    else upsert_on_conflict s now id d (find (is_of s.user_id s.device_id) d.sessions)

unfoldable pub query_update_session : Session → Statement (Unit {0})
query_update_session s now id d =
    if any (λ r. r.id == s.id) d.sessions
      && any (λ r. has_hash s.refresh_token_hash r && not (r.id == s.id)) d.sessions
    then (err unique_violation, d)
    else (
      ok tt,
      record d {
        sessions =
            update (λ r. r.id == s.id)
              (λ r. record r {
                refresh_token_hash = s.refresh_token_hash;
                expired_at = s.expired_at;
                last_seen_at = s.last_seen_at;
                updated_at = now;
              })
              d.sessions;
      },
    )

unfoldable pub query_insert_session : Session → Statement Session
query_insert_session s now id d =
    if any (has_hash s.refresh_token_hash) d.sessions
      || any (is_of s.user_id s.device_id) d.sessions
    then (err unique_violation, d)
    else let row = inserted_row s now id in
      (ok (returned s row), record d { sessions = d.sessions ++ (row ∷ []) })

unfoldable pub query_get_by_refresh_token_hash : Str → Statement Session
query_get_by_refresh_token_hash hash now id d =
    (or_session_not_found (find (has_hash hash) d.sessions), d)

abbrev pub is_live : ℕ → ℕ → Session → Bool
is_live user_id now s = s.user_id == user_id && (not (is_revoked s) && ltb now s.expired_at)

unfoldable pub query_list_active_by_user_id : ℕ → Statement (List Session)
query_list_active_by_user_id user_id now id d =
    (ok (order_desc (λ s. s.created_at) (filter (is_live user_id now) d.sessions)), d)

-- `revoked_at = $2, session_status = 'revoked'`
abbrev pub revoked_row : ℕ → ℕ → Session → Session
revoked_row revoked_at now s = record s {
  revoked_at = some revoked_at;
  session_status = SessionStatus.revoked;
  updated_at = now;
}

abbrev pub is_open : Session → Bool
is_open s = not (is_revoked s) && s.session_status == SessionStatus.active

unfoldable pub query_revoke_session : ℕ → ℕ → ℕ → Statement (Unit {0})
query_revoke_session device_id user_id revoked_at now id d =
    let p = λ (s : Session). is_of user_id device_id s && is_open s in
    if count p d.sessions == 0
    then (err session_not_found, d)
    else (ok tt, record d { sessions = update p (revoked_row revoked_at now) d.sessions })

-- The status is left as it is.
unfoldable pub query_revoke_all_by_user_id : ℕ → ℕ → Statement (Unit {0})
query_revoke_all_by_user_id user_id revoked_at now id d = (
  ok tt,
  record d {
    sessions =
        update (is_live user_id now)
          (λ s. record s { revoked_at = some revoked_at; updated_at = now }) d.sessions;
  },
)

unfoldable pub query_revoke_all_except : ℕ → ℕ → ℕ → Statement (Unit {0})
query_revoke_all_except user_id except_session_id revoked_at now id d = (
  ok tt,
  record d {
    sessions =
        update (λ s. s.user_id == user_id && (not (s.id == except_session_id) && is_open s))
          (revoked_row revoked_at now) d.sessions;
  },
)

-- The methods of `SessionRepository`: each runs its statement on the context's executor.
module _ {V : Type 0} {R : Redis V} (c : Context) where
  abbrev pub get_by_device_id : ℕ → ℕ → Action (World R) Error Session
  get_by_device_id user_id device_id = execute c (query_get_by_device_id user_id device_id)

  abbrev pub upsert : Session → Action (World R) Error Session
  upsert s = execute c (query_upsert_session s)

  abbrev pub update_session : Session → Action (World R) Error (Unit {0})
  update_session s = execute c (query_update_session s)

  abbrev pub insert_session : Session → Action (World R) Error Session
  insert_session s = execute c (query_insert_session s)

  -- With and without FOR UPDATE.
  abbrev pub get_by_refresh_token_hash : Str → Action (World R) Error Session
  get_by_refresh_token_hash hash = execute c (query_get_by_refresh_token_hash hash)

  abbrev pub list_active_by_user_id : ℕ → Action (World R) Error (List Session)
  list_active_by_user_id user_id = execute c (query_list_active_by_user_id user_id)

  abbrev pub revoke : ℕ → ℕ → ℕ → Action (World R) Error (Unit {0})
  revoke device_id user_id revoked_at =
      execute c (query_revoke_session device_id user_id revoked_at)

  abbrev pub revoke_all_by_user_id : ℕ → ℕ → Action (World R) Error (Unit {0})
  revoke_all_by_user_id user_id revoked_at =
      execute c (query_revoke_all_by_user_id user_id revoked_at)

  abbrev pub revoke_all_except : ℕ → ℕ → ℕ → Action (World R) Error (Unit {0})
  revoke_all_except user_id except_session_id revoked_at =
      execute c (query_revoke_all_except user_id except_session_id revoked_at)
