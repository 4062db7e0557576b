-- ===== src/Tests/Identity.antt =====
-- The identity module.
use bookstore_golang.Base.{
  some, ◌≡◌, refl, true, false, nat_eq, none, count, order_desc, insert_desc, [], ◌∷◌, ok, any,
  find, filter, update, ℕ_discrete,
}
use bookstore_golang.Base.Text.{codes, str_eq, Str-discrete, ascii, trim, byte_len}
use bookstore_golang.Platform.Redis.{call, redis_set, redis_get_del}
use bookstore_golang.Database.{World, execute, attempt, on_redis}
use bookstore_golang.Database.Tx.{within_transaction, begin_tx, rollback}
use bookstore_golang.Database.Tx.Atomic.{is_err}
use bookstore_golang.Identity.Entity.{Email, Credential, new_email}
use bookstore_golang.Identity.Policy.{
  validate_password, validate_registration, new_register_policy, scan,
}
use bookstore_golang.Identity.Repo.Session.{query_list_active_by_user_id}
use bookstore_golang.Identity.Repo.Credential.{query_insert, query_update_password_hash}
use bookstore_golang.Identity.Cache.{
  issue_verify_token, generate_secure_token, parse_password_reset_token,
}
use bookstore_golang.Identity.Auth.{RegisterCommand, ChangePasswordCommand, ResetPasswordCommand}
use bookstore_golang.Identity.Auth.Register.{register, register_tx, new_user, new_credential}
use bookstore_golang.Identity.Auth.Password.{reset_password, reset_password_tx}
use bookstore_golang.Identity.Auth.Created.{with_account, register_creates}
use bookstore_golang.Identity.Auth.Atomicity.{register_rolls_back, reset_password_rolls_back}
use bookstore_golang.Identity.Repo.User.{
  query_get_user_by_id, map_user_row_to_entity, query_insert_user, query_check_exist_email,
}
use bookstore_golang.Identity.Tokens.{hash_password}
use bookstore_golang.Identity.Publisher.{publish_user_registered}
use bookstore_golang.Outbox.Recorder.{record_event}
use bookstore_golang.Identity.Status.{UserStatus}
use bookstore_golang.Database.{UserRow}
use bookstore_golang.Tests.Data.{
  Value, library, store, empty_db, world, context, service, two_sessions,
}

abbrev alice : RegisterCommand
alice = record {
  email = codes "A@b.vn";
  password = codes "Secret123";
  full_name = codes "Alice";
  phone = none;
}

abbrev alices_email : Email
alices_email = record { value = codes "a@b.vn" }

new_email-alice : new_email ascii (λ s. true) alice.email ≡ ok alices_email
unfolding new_email trim byte_len Str-discrete ℕ_discrete
new_email-alice = refl

alice_valid : validate_registration ascii new_register_policy alices_email alice.password ≡ ok tt
unfolding validate_registration validate_password scan byte_len Str-discrete ℕ_discrete
alice_valid = refl

register_creates_example :
    ((register library service context alice (world [])).0
      ≡ ok (record { user_id = 2; email = codes "a@b.vn" }))
    × ((register library service context alice (world [])).1.db
        ≡ with_account library context
            (new_user library alice alices_email)
            (new_credential (b'!' ∷ alice.password) 100)
            (8 ∷ [])
            100
            2
            8
            empty_db)
unfolding any Str-discrete ℕ_discrete
register_creates_example =
    register_creates {R = store} library service context alice (world []) alices_email
      (b'!' ∷ alice.password) (8 ∷ []) refl refl new_email-alice alice_valid refl refl refl refl
      refl

-- The insert of the event fails, after the rows of the user and the credential are written.
abbrev doomed : World store
doomed = world (false ∷ false ∷ false ∷ false ∷ false ∷ true ∷ [])

register_fails : is_err (register library service context alice doomed).0 ≡ true
unfolding register new_email trim byte_len validate_registration validate_password scan any
    Str-discrete ℕ_discrete hash_password issue_verify_token generate_secure_token
    publish_user_registered record_event register_tx query_insert_user query_insert
    query_check_exist_email execute attempt within_transaction begin_tx rollback on_redis redis_set
    call
register_fails = refl

register_rolls_back_example : (register library service context alice doomed).1.db ≡ doomed.db
register_rolls_back_example =
    register_rolls_back library service context alice doomed register_fails

abbrev change : ChangePasswordCommand
change = record {
  user_id = 2;
  current_password = codes "Secret123";
  new_password = codes "Secret124";
  current_session_id = 4;
}

abbrev pub alices_credential : Credential
alices_credential = record {
  user_id = 2;
  password_hash = b'!' ∷ codes "Secret123";
  password_algo = codes "bcrypt";
  password_changed_at = 50;
  failed_login_count = 0;
  last_failed_login_at = none;
}

-- The new password is written, and the revocation fails.
abbrev half_changed : World store
half_changed = record (world (false ∷ false ∷ false ∷ false ∷ true ∷ [])) {
  db = record two_sessions { credentials = alices_credential ∷ [] };
}

abbrev reset : ResetPasswordCommand
reset = record { token = codes "t"; new_password = codes "Secret124" }

abbrev pub alices_row : UserRow
alices_row = record {
  id = 2;
  email = codes "a@b.vn";
  full_name = codes "Alice";
  phone = none;
  user_type = codes "customer";
  status = UserStatus.active;
  email_verified_at = some 40;
  last_login_at = none;
  locked_reason = none;
  version = 1;
  created_at = 20;
  updated_at = 40;
}

-- The token is good and the new password is written, and the revocation fails.
abbrev half_reset : World store
half_reset = record half_changed {
  env = record (half_changed.env) {
    store = λ k. some (Value.user 2, some 999);
    faults = false ∷ false ∷ false ∷ false ∷ false ∷ true ∷ [];
  };
  db = record (half_changed.db) { users = alices_row ∷ [] };
}

reset_password_fails : is_err (reset_password library service context reset half_reset).0 ≡ true
unfolding reset_password reset_password_tx parse_password_reset_token validate_password scan
    byte_len redis_get_del on_redis call query_get_user_by_id map_user_row_to_entity new_email trim
    query_list_active_by_user_id query_update_password_hash hash_password find filter update count
    order_desc insert_desc Str-discrete ℕ_discrete execute attempt within_transaction begin_tx
    rollback
reset_password_fails = refl

reset_password_rolls_back_example :
    (reset_password library service context reset half_reset).1.db ≡ half_reset.db
reset_password_rolls_back_example =
    reset_password_rolls_back library service context reset half_reset reset_password_fails
