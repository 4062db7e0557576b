-- ===== src/Identity/Auth/Atomicity.antt =====
-- The operations of the service that write several rows: each takes effect whole or not at all.
use bookstore_golang.Base.{ℕ, ◌≡◌, refl, true, not, ◌==◌, Result, pure, fail, guard, catch}
use bookstore_golang.Base.Text.{Str, str_eq}
use bookstore_golang.Errors.{
  Error, email_already_exist, reset_token_expired, wrong_current_password, same_as_old_password,
}
use bookstore_golang.Platform.Redis.{Redis}
use bookstore_golang.Database.{Context, World, now_of}
use bookstore_golang.Database.Tx.{within_transaction}
use bookstore_golang.Database.Tx.Atomic.{KeepsDb, is_err, execute-KeepsDb}
use bookstore_golang.Database.Tx.Rules.{
  Atomic, Sure, >>=-KeepsDb, catch-KeepsDb, guard-KeepsDb, >>=-Atomic, >>=-Sure,
  within_transaction-Atomic,
}
use bookstore_golang.Identity.Entity.{User, Credential, new_email}
use bookstore_golang.Identity.Policy.{validate_registration, validate_password}
use bookstore_golang.Identity.Library.{Library}
use bookstore_golang.Identity.Tokens.{hash_password, verify_password}
use bookstore_golang.Identity.Cache.{issue_verify_token, parse_password_reset_token}
use bookstore_golang.Identity.Publisher.{publish_user_registered}
use bookstore_golang.Identity.Repo.User.{insert_user, exists_by_email, get_by_id}
use bookstore_golang.Identity.Repo.Credential.{
  insert_credential, get_by_user_id, update_password_hash,
}
use bookstore_golang.Identity.Repo.Session.{revoke_all_by_user_id, list_active_by_user_id}
use bookstore_golang.Identity.Auth.{
  AuthService, RegisterCommand, ChangePasswordCommand, ResetPasswordCommand, lift,
}
use bookstore_golang.Identity.Auth.Register.{register, register_tx, new_user, new_credential}
use bookstore_golang.Identity.Auth.Password.{
  change_password, change_password_tx, reset_password, reset_password_tx,
}
use bookstore_golang.Identity.Keeps.{
  hash_password-KeepsDb, verify_password-KeepsDb, issue_verify_token-KeepsDb,
  publish_user_registered-KeepsDb, publish_reset_password_completed-KeepsDb,
  exists_by_email-KeepsDb, get_by_user_id-KeepsDb, get_by_id-KeepsDb,
  list_active_by_user_id-KeepsDb, parse_password_reset_token-KeepsDb,
}

module _ {V : Type 0} {R : Redis V} where
  lift-KeepsDb : {A : Type 0} (r : Result Error A) → KeepsDb {R = R} (lift r)
  lift-KeepsDb r = record { kept = λ w. refl }

  fail-KeepsDb : {A : Type 0} (e : Error) → KeepsDb {R = R} {A = A} (fail e)
  fail-KeepsDb e = record { kept = λ w. refl }

  pure-Sure : {A : Type 0} (a : A) → Sure {R = R} (pure a)
  pure-Sure a = record { ends_well = λ w. refl }

  change_password_tx-KeepsDb :
      (user_id current : ℕ) (hash : Str) (now : ℕ) (c : Context)
      → c.in_tx ≡ true
      → KeepsDb {R = R} (change_password_tx user_id current hash now c)
  unfolding change_password_tx
  change_password_tx-KeepsDb user_id current hash now c inside =
      >>=-KeepsDb (update_password_hash c user_id hash now) _ (execute-KeepsDb c _ inside)
        λ _. execute-KeepsDb c _ inside

module _ {V : Type 0} {R : Redis V} (l : Library V) where
  register_tx-KeepsDb :
      (user : User) (credential : Credential) (c : Context)
      → c.in_tx ≡ true
      → KeepsDb {R = R} (register_tx l user credential c)
  unfolding register_tx
  register_tx-KeepsDb user credential c inside =
      >>=-KeepsDb (insert_user c user) _ (execute-KeepsDb c _ inside) λ user_id.
        >>=-KeepsDb (insert_credential c (record credential { user_id = user_id })) _
          (execute-KeepsDb c _ inside)
          λ _.
            >>=-KeepsDb (issue_verify_token l user_id) _ (issue_verify_token-KeepsDb l user_id)
              λ token.
                >>=-KeepsDb (publish_user_registered l c user_id user.email.value token) _
                  (publish_user_registered-KeepsDb l c inside user_id user.email.value token)
                  λ _. record { kept = λ w. refl }

  reset_password_tx-KeepsDb :
      (s : AuthService) (ctx : Context) (user_id : ℕ) (email hash : Str) (c : Context)
      → c.in_tx ≡ true
      → KeepsDb {R = R} (reset_password_tx l s ctx user_id email hash c)
  unfolding reset_password_tx
  reset_password_tx-KeepsDb s ctx user_id email hash c inside = record {
    kept = λ w.
        (>>=-KeepsDb (update_password_hash c user_id hash w.now) _ (execute-KeepsDb c _ inside) λ _.
            (record {
              kept = λ w'.
                  (>>=-KeepsDb (revoke_all_by_user_id c user_id w'.now) _
                      (execute-KeepsDb c _ inside)
                      λ _. publish_reset_password_completed-KeepsDb l c inside user_id email).kept
                    w';
            })).kept
          w;
  }

  register-Atomic :
      (s : AuthService) (ctx : Context) (cmd : RegisterCommand)
      → Atomic {R = R} (register l s ctx cmd)
  unfolding register
  register-Atomic s ctx cmd =
      >>=-Atomic (lift (new_email l.unicode l.parse_address cmd.email)) _ (lift-KeepsDb _) λ email.
        >>=-Atomic (lift (validate_registration l.unicode s.register_policy email cmd.password)) _
          (lift-KeepsDb _)
          λ _. >>=-Atomic (exists_by_email ctx email) _ (exists_by_email-KeepsDb ctx email) λ exist.
            >>=-Atomic (guard (not exist) email_already_exist) _ (guard-KeepsDb _ _) λ _.
              >>=-Atomic (hash_password l cmd.password) _ (hash_password-KeepsDb l cmd.password)
                λ hashed.
                  >>=-Atomic now_of _ (record { kept = λ w. refl })
                    λ now.
                      >>=-Sure
                        (within_transaction ctx
                          (register_tx l (new_user l cmd email) (new_credential hashed now)))
                        _
                        (within_transaction-Atomic ctx _
                          (register_tx-KeepsDb (new_user l cmd email) (new_credential hashed now)))
                        λ user_id. pure-Sure _

  change_password-Atomic :
      (s : AuthService) (ctx : Context) (cmd : ChangePasswordCommand)
      → Atomic {R = R} (change_password l s ctx cmd)
  unfolding change_password
  change_password-Atomic s ctx cmd =
      >>=-Atomic (get_by_user_id ctx cmd.user_id) _ (get_by_user_id-KeepsDb ctx cmd.user_id)
        λ credential.
          >>=-Atomic
            (catch (verify_password l cmd.current_password credential.password_hash)
              (λ _. fail wrong_current_password))
            _ (catch-KeepsDb _ _ (verify_password-KeepsDb l _ _) (λ _. fail-KeepsDb _))
            λ _.
              >>=-Atomic
                (guard (not (cmd.new_password == cmd.current_password)) same_as_old_password) _
                (guard-KeepsDb _ _)
                λ _.
                  >>=-Atomic (hash_password l cmd.new_password) _
                    (hash_password-KeepsDb l cmd.new_password)
                    λ hash.
                      >>=-Atomic (list_active_by_user_id ctx credential.user_id) _
                        (list_active_by_user_id-KeepsDb ctx credential.user_id)
                        λ sessions.
                          >>=-Atomic now_of _ (record { kept = λ w. refl })
                            λ now.
                              >>=-Sure
                                (within_transaction ctx (
                                  change_password_tx credential.user_id cmd.current_session_id hash
                                    now))
                                _
                                (within_transaction-Atomic ctx _ (
                                  change_password_tx-KeepsDb credential.user_id
                                    cmd.current_session_id hash now))
                                λ _. record { ends_well = λ w. refl }

  reset_password-Atomic :
      (s : AuthService) (ctx : Context) (cmd : ResetPasswordCommand)
      → Atomic {R = R} (reset_password l s ctx cmd)
  unfolding reset_password
  reset_password-Atomic s ctx cmd =
      >>=-Atomic (lift (validate_password l.unicode s.register_policy cmd.new_password)) _
        (lift-KeepsDb _)
        λ _.
          >>=-Atomic
            (catch (parse_password_reset_token l cmd.token) (λ _. fail reset_token_expired)) _
            (catch-KeepsDb _ _ (parse_password_reset_token-KeepsDb l cmd.token)
              (λ _. fail-KeepsDb _))
            λ user_id.
              >>=-Atomic (get_by_id ctx l.unicode l.parse_address user_id) _
                (get_by_id-KeepsDb ctx l user_id)
                λ user.
                  >>=-Atomic (list_active_by_user_id ctx user_id) _
                    (list_active_by_user_id-KeepsDb ctx user_id)
                    λ sessions.
                      >>=-Atomic (hash_password l cmd.new_password) _
                        (hash_password-KeepsDb l cmd.new_password)
                        λ hash.
                          >>=-Sure
                            (within_transaction ctx
                              (reset_password_tx l s ctx user_id user.email.value hash))
                            _
                            (within_transaction-Atomic ctx _
                              (reset_password_tx-KeepsDb s ctx user_id user.email.value hash))
                            λ _. record { ends_well = λ w. refl }

  -- If Register returns an error, whatever call failed and also if the rollback fails, the tables
  -- are what they were.
  pub register_rolls_back :
      (s : AuthService) (ctx : Context) (cmd : RegisterCommand) (w : World R)
      → is_err (register l s ctx cmd w).0 ≡ true
      → (register l s ctx cmd w).1.db ≡ w.db
  register_rolls_back s ctx cmd w failed = (register-Atomic s ctx cmd).restored w failed

  -- If ChangePassword returns an error, whatever call failed, the tables are what they were.
  change_password_rolls_back :
      (s : AuthService) (ctx : Context) (cmd : ChangePasswordCommand) (w : World R)
      → is_err (change_password l s ctx cmd w).0 ≡ true
      → (change_password l s ctx cmd w).1.db ≡ w.db
  change_password_rolls_back s ctx cmd w failed =
      (change_password-Atomic s ctx cmd).restored w failed

  -- If ResetPassword returns an error, whatever call failed, the tables are what they were.
  pub reset_password_rolls_back :
      (s : AuthService) (ctx : Context) (cmd : ResetPasswordCommand) (w : World R)
      → is_err (reset_password l s ctx cmd w).0 ≡ true
      → (reset_password l s ctx cmd w).1.db ≡ w.db
  reset_password_rolls_back s ctx cmd w failed = (reset_password-Atomic s ctx cmd).restored w failed
