-- ===== src/Identity/Keeps.antt =====
-- The calls of the service that write no table: those of Redis, the tokens, the reads, and, inside a
-- transaction, every statement.
use bookstore_golang.Base.{ℕ, ◌≡◌, refl, true, arith, not, ◌==◌, [], guard}
use bookstore_golang.Base.Text.{Str, str_eq}
use bookstore_golang.Errors.{empty_token}
use bookstore_golang.Platform.Redis.{Redis}
use bookstore_golang.Database.{Context}
use bookstore_golang.Database.Tx.Atomic.{KeepsDb, execute-KeepsDb}
use bookstore_golang.Database.Tx.Rules.{execute-Reads, guard-KeepsDb, >>=-KeepsDb}
use bookstore_golang.Outbox.Model.{RecordParams}
use bookstore_golang.Outbox.Recorder.{record_event}
use bookstore_golang.Identity.Entity.{Email}
use bookstore_golang.Identity.Library.{Library}
use bookstore_golang.Identity.Tokens.{
  JwtConfig, hash_password, verify_password, generate_access_token, generate_refresh_token,
}
use bookstore_golang.Identity.Cache.{issue_verify_token, parse_password_reset_token, get_session}
use bookstore_golang.Identity.Publisher.{publish_user_registered, publish_reset_password_completed}
use bookstore_golang.Identity.Repo.User.{
  query_check_exist_email, query_get_user_by_id, exists_by_email, get_by_id,
}
use bookstore_golang.Identity.Repo.Credential.{query_credential_get_by_user_id, get_by_user_id}
use bookstore_golang.Identity.Repo.Session.{
  query_list_active_by_user_id, query_get_by_refresh_token_hash, list_active_by_user_id,
  get_by_refresh_token_hash,
}

module _ {V : Type 0} {R : Redis V} (l : Library V) where
  pub hash_password-KeepsDb : (p : Str) → KeepsDb {R = R} (hash_password l p)
  unfolding hash_password
  hash_password-KeepsDb p = record { kept = λ w. ground arith }

  pub verify_password-KeepsDb : (p h : Str) → KeepsDb {R = R} (verify_password l p h)
  unfolding verify_password
  verify_password-KeepsDb p h = record { kept = λ w. ground arith }

  pub generate_access_token-KeepsDb :
      (cfg : JwtConfig) (user_id : ℕ) (email role session_id device_id : Str)
      → KeepsDb {R = R} (generate_access_token l cfg user_id email role session_id device_id)
  unfolding generate_access_token
  generate_access_token-KeepsDb cfg user_id email role session_id device_id = record {
    kept = λ w. ground arith;
  }

  pub generate_refresh_token-KeepsDb :
      (cfg : JwtConfig) (user_id : ℕ) (email role device_id : Str)
      → KeepsDb {R = R} (generate_refresh_token l cfg user_id email role device_id)
  unfolding generate_refresh_token
  generate_refresh_token-KeepsDb cfg user_id email role device_id = record {
    kept = λ w. ground arith;
  }

  pub issue_verify_token-KeepsDb : (user_id : ℕ) → KeepsDb {R = R} (issue_verify_token l user_id)
  unfolding issue_verify_token
  issue_verify_token-KeepsDb user_id = record { kept = λ w. ground arith }

  pub parse_password_reset_token-KeepsDb :
      (t : Str) → KeepsDb {R = R} (parse_password_reset_token l t)
  unfolding parse_password_reset_token
  parse_password_reset_token-KeepsDb t = record { kept = λ w. ground arith }

  pub get_session-KeepsDb : (h : Str) → KeepsDb {R = R} (get_session l h)
  unfolding get_session
  get_session-KeepsDb h = record { kept = λ w. ground arith }

  module _ (c : Context) (inside : c.in_tx ≡ true) where
    record_event-KeepsDb : (p : RecordParams) → KeepsDb {R = R} (record_event l.uuid c p)
    unfolding record_event
    record_event-KeepsDb p = record { kept = λ w. (execute-KeepsDb c _ inside).kept _ }

    pub publish_user_registered-KeepsDb :
        (user_id : ℕ) (email token : Str)
        → KeepsDb {R = R} (publish_user_registered l c user_id email token)
    unfolding publish_user_registered
    publish_user_registered-KeepsDb user_id email token =
        >>=-KeepsDb (guard (not (token == [])) empty_token) _
          (guard-KeepsDb (not (token == [])) empty_token)
          λ _. record { kept = λ w. (record_event-KeepsDb _).kept w }

    pub publish_reset_password_completed-KeepsDb :
        (user_id : ℕ) (email : Str)
        → KeepsDb {R = R} (publish_reset_password_completed l c user_id email)
    unfolding publish_reset_password_completed
    publish_reset_password_completed-KeepsDb user_id email = record {
      kept = λ w. (record_event-KeepsDb _).kept w;
    }

module _ {V : Type 0} {R : Redis V} (c : Context) where
  pub exists_by_email-KeepsDb : (email : Email) → KeepsDb {R = R} (exists_by_email c email)
  unfolding query_check_exist_email
  exists_by_email-KeepsDb email = execute-Reads c _ (λ now id d. refl)

  module _ {V' : Type 0} (l : Library V') where
    pub get_by_id-KeepsDb :
        (user_id : ℕ) → KeepsDb {R = R} (get_by_id c l.unicode l.parse_address user_id)
    unfolding query_get_user_by_id
    get_by_id-KeepsDb user_id = execute-Reads c _ (λ now id d. refl)

  pub get_by_user_id-KeepsDb : (user_id : ℕ) → KeepsDb {R = R} (get_by_user_id c user_id)
  unfolding query_credential_get_by_user_id
  get_by_user_id-KeepsDb user_id = execute-Reads c _ (λ now id d. refl)

  pub list_active_by_user_id-KeepsDb :
      (user_id : ℕ) → KeepsDb {R = R} (list_active_by_user_id c user_id)
  unfolding query_list_active_by_user_id
  list_active_by_user_id-KeepsDb user_id = execute-Reads c _ (λ now id d. refl)

  pub get_by_refresh_token_hash-KeepsDb :
      (hash : Str) → KeepsDb {R = R} (get_by_refresh_token_hash c hash)
  unfolding query_get_by_refresh_token_hash
  get_by_refresh_token_hash-KeepsDb hash = execute-Reads c _ (λ now id d. refl)
