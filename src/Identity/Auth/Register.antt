-- ===== src/Identity/Auth/Register.antt =====
-- `Register`
use bookstore_golang.Base.{ℕ, none, not, Action, pure, guard, ◌>>=◌, ◌>>◌}
use bookstore_golang.Base.Text.{Str, codes, trim}
use bookstore_golang.Errors.{Error, email_already_exist}
use bookstore_golang.Platform.Redis.{Redis}
use bookstore_golang.Database.{Context, World, now_of}
use bookstore_golang.Database.Tx.{within_transaction}
use bookstore_golang.Identity.Status.{UserStatus}
use bookstore_golang.Identity.Entity.{Email, User, Credential, new_email}
use bookstore_golang.Identity.Policy.{validate_registration}
use bookstore_golang.Identity.Library.{Library}
use bookstore_golang.Identity.Tokens.{hash_password}
use bookstore_golang.Identity.Cache.{issue_verify_token}
use bookstore_golang.Identity.Publisher.{publish_user_registered}
use bookstore_golang.Identity.Repo.User.{exists_by_email, insert_user}
use bookstore_golang.Identity.Repo.Credential.{insert_credential}
use bookstore_golang.Identity.Auth.{AuthService, RegisterCommand, lift, normalize_optional_string}

pub record RegisterOutput : Type 0 where
  pub user_id : ℕ
  pub email : Str

module _ {V : Type 0} (l : Library V) where
  abbrev pub new_user : RegisterCommand → Email → User
  new_user cmd email = record {
    id = 0;
    email = email;
    full_name = trim l.unicode cmd.full_name;
    phone = normalize_optional_string l.unicode cmd.phone;
    user_type = codes "customer";
    status = UserStatus.pending_verification;
    email_verified_at = none;
    last_login_at = none;
    locked_reason = none;
    version = 1;
    created_at = 0;
    updated_at = 0;
  }

abbrev pub new_credential : Str → ℕ → Credential
new_credential hashed_password now = record {
  user_id = 0;
  password_hash = hashed_password;
  password_algo = codes "bcrypt";
  password_changed_at = now;
  failed_login_count = 0;
  last_failed_login_at = none;
}

module _ {V : Type 0} {R : Redis V} (l : Library V) where
  -- The transaction; the id that the insert scans into `user.ID` is its result.
  unfoldable pub register_tx : User → Credential → Context → Action (World R) Error ℕ
  unfolding issue_verify_token publish_user_registered
  register_tx user credential tx_ctx = do
    user_id ← insert_user tx_ctx user
    insert_credential tx_ctx (record credential { user_id = user_id })
    verify_token ← issue_verify_token l user_id
    publish_user_registered l tx_ctx user_id user.email.value verify_token
    pure user_id

  unfoldable pub register :
      AuthService → Context → RegisterCommand → Action (World R) Error RegisterOutput
  unfolding register_tx hash_password within_transaction
  register s ctx cmd = do
    email ← lift (new_email l.unicode l.parse_address cmd.email)
    lift (validate_registration l.unicode s.register_policy email cmd.password)
    exist ← exists_by_email ctx email
    guard (not exist) email_already_exist
    hashed_password ← hash_password l cmd.password
    now ← now_of
    user_id ←
        within_transaction ctx
          (register_tx (new_user l cmd email) (new_credential hashed_password now))
    pure (record { user_id = user_id; email = email.value })
