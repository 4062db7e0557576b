-- ===== src/Identity/Auth/Password.antt =====
-- `ChangePassword`, `ForgotPassword` and `ResetPassword`
use bookstore_golang.Base.{
  ℕ, ◌*◌, not, List, map, Result, ok, err, Action, fail, guard, catch, ignore, ◌>>=◌, ◌>>◌, ◌==◌,
  nat_eq, filter,
}
use bookstore_golang.Base.Text.{Str, str_eq}
use bookstore_golang.Errors.{
  Error, user_not_found, wrong_current_password, same_as_old_password, reset_token_expired,
}
use bookstore_golang.Platform.Redis.{Redis}
use bookstore_golang.Database.{Context, World, now_of}
use bookstore_golang.Database.Tx.{within_transaction}
use bookstore_golang.Identity.Entity.{User, Session, new_email}
use bookstore_golang.Identity.Policy.{validate_password}
use bookstore_golang.Identity.Library.{Library}
use bookstore_golang.Identity.Tokens.{hash_password, verify_password}
use bookstore_golang.Identity.Cache.{
  delete_sessions, generate_secure_token, store_password_reset_token, parse_password_reset_token,
}
use bookstore_golang.Identity.Publisher.{
  publish_reset_password_requested, publish_reset_password_completed,
}
use bookstore_golang.Identity.Repo.User.{get_by_id, get_by_email}
use bookstore_golang.Identity.Repo.Credential.{get_by_user_id, update_password_hash}
use bookstore_golang.Identity.Repo.Session.{
  list_active_by_user_id, revoke_all_except, revoke_all_by_user_id,
}
use bookstore_golang.Identity.Auth.{AuthService, ChangePasswordCommand, ResetPasswordCommand, lift}

-- The loop over the active sessions that leaves the current one out.
unfoldable pub hashes_except : ℕ → List Session → List Str
hashes_except current sessions =
    map (λ s. s.refresh_token_hash) (filter (λ s. not (s.id == current)) sessions)

module _ {V : Type 0} {R : Redis V} where
  unfoldable pub change_password_tx : ℕ → ℕ → Str → ℕ → Context → Action (World R) Error (Unit {0})
  change_password_tx user_id current_session_id new_password_hash now tx_ctx = do
    update_password_hash tx_ctx user_id new_password_hash now
    revoke_all_except tx_ctx user_id current_session_id now

module _ {V : Type 0} {R : Redis V} (l : Library V) (s : AuthService) (ctx : Context) where
  -- `DeleteSessions` of no hash makes no call, as the test on the length here.
  unfoldable pub change_password : ChangePasswordCommand → Action (World R) Error (Unit {0})
  unfolding verify_password hash_password change_password_tx within_transaction delete_sessions
  change_password cmd = do
    credential ← get_by_user_id ctx cmd.user_id
    catch (verify_password l cmd.current_password credential.password_hash)
        (λ _. fail wrong_current_password)
    guard (not (cmd.new_password == cmd.current_password)) same_as_old_password
    new_password_hash ← hash_password l cmd.new_password
    active_sessions ← list_active_by_user_id ctx credential.user_id
    let hashes_to_delete = hashes_except cmd.current_session_id active_sessions
    now ← now_of
    within_transaction ctx
        (change_password_tx credential.user_id cmd.current_session_id new_password_hash now)
    ignore (delete_sessions hashes_to_delete)

  -- An address that is not known is answered like one that is.
  abbrev pub forgot_found :
      Result Error User × World R
      → (User → Action (World R) Error (Unit {0}))
      → Result Error (Unit {0}) × World R
  forgot_found (ok user, w) f = f user w
  forgot_found (err user_not_found, w) f = (ok tt, w)
  forgot_found (err e, w) f = (err e, w)

  unfoldable pub send_reset_token : User → Action (World R) Error (Unit {0})
  unfolding generate_secure_token store_password_reset_token publish_reset_password_requested
  send_reset_token user = do
    token ← generate_secure_token l
    store_password_reset_token l token user.id (15 * (60 * 1000000000))
    publish_reset_password_requested l ctx user.id user.email.value token

  unfoldable pub forgot_password : Str → Action (World R) Error (Unit {0})
  unfolding send_reset_token
  forgot_password raw_email = do
    email ← lift (new_email l.unicode l.parse_address raw_email)
    λ w. forgot_found (get_by_email ctx l.unicode l.parse_address email w) send_reset_token

  unfoldable pub reset_password_tx : ℕ → Str → Str → Context → Action (World R) Error (Unit {0})
  unfolding publish_reset_password_completed
  reset_password_tx user_id email hashed_password tx_ctx = do
    changed_at ← now_of
    update_password_hash tx_ctx user_id hashed_password changed_at
    revoked_at ← now_of
    revoke_all_by_user_id tx_ctx user_id revoked_at
    publish_reset_password_completed l tx_ctx user_id email

  unfoldable pub reset_password : ResetPasswordCommand → Action (World R) Error (Unit {0})
  unfolding parse_password_reset_token hash_password reset_password_tx within_transaction
      delete_sessions
  reset_password cmd = do
    lift (validate_password l.unicode s.register_policy cmd.new_password)
    user_id ← catch (parse_password_reset_token l cmd.token) (λ _. fail reset_token_expired)
    user ← get_by_id ctx l.unicode l.parse_address user_id
    active_sessions ← list_active_by_user_id ctx user_id
    let hashes_to_delete = map (λ (x : Session). x.refresh_token_hash) active_sessions
    hashed_password ← hash_password l cmd.new_password
    within_transaction ctx (reset_password_tx user_id user.email.value hashed_password)
    ignore (delete_sessions hashes_to_delete)
