-- ===== src/Identity/Auth/Opened.antt =====
-- The session that `Login` opens.
use bookstore_golang.Base.{
  ℕ, ◌+◌, ◌≡◌, refl, subst, sym, ap, ◌∙◌, none, some, false, ok, pure, fail, catch, ignore, ◌>>=◌,
  ◌>>◌, ◌==◌, after, find, arith,
}
use bookstore_golang.Base.Text.{Str, str_eq, trim}
use bookstore_golang.Identity.Repo.Device
use bookstore_golang.Errors.{invalid_credentials}
use bookstore_golang.Platform.Redis.{Redis}
use bookstore_golang.Database.{Context, World, UserRow, Statement, execute, attempt, on_redis}
use bookstore_golang.Database.Tx.Rules.{kept_ok}
use bookstore_golang.Identity.Status.{can_login}
use bookstore_golang.Identity.Entity.{User, Session, SessionStatus, Email, new_email}
use bookstore_golang.Identity.Library.{Library}
use bookstore_golang.Identity.Tokens.{
  generate_access_token, generate_refresh_token, verify_password,
}
use bookstore_golang.Identity.Cache.{store_session}
use bookstore_golang.Identity.Repo.User.{get_by_email}
use bookstore_golang.Identity.Repo.Credential.{get_by_user_id}
use bookstore_golang.Identity.Repo.Session
use bookstore_golang.Identity.Repo.Session.{has_hash, query_upsert_session}
use bookstore_golang.Identity.Repo.Session.Upserted.{Stored, query_upsert_session-Stored}
use bookstore_golang.Identity.Auth.{
  token_of, expiry_of, AuthService, LoginCommand, TokenOutput, session_ttl,
}
use bookstore_golang.Identity.Auth.Login.{
  login_session, check_device, login_device, drop_old_session, open_session, enter_device, login,
}
use bookstore_golang.Identity.Auth.Proven.{executed_ok, guard_ok, lift_ok, user_read}
use bookstore_golang.Identity.Keeps.{generate_access_token-KeepsDb}

module _ {V : Type 0} {R : Redis V} (l : Library V) where
  -- The session of a user that the tokens belong to, until a time.
  abbrev pub Opens : ℕ → ℕ → TokenOutput → World R → Type 0
  Opens user_id until out t =
      (row : Session) × (find (has_hash (l.hash_token out.refresh_token)) t.db.sessions ≡ some row)
      × (row.user_id ≡ user_id)
      × (row.session_status ≡ SessionStatus.active)
      × (row.revoked_at ≡ none)
      × (row.expired_at ≡ until)
      × (out.refresh_token_expires_at ≡ until)

  tokens_of :
      (s : AuthService) (user : User) (device_id : ℕ) (raw : Str) (session new : Session)
      (until ttl : ℕ) (w : World R) {out : TokenOutput} {t : World R}
      → Stored new w.db
      → new.refresh_token_hash ≡ l.hash_token raw
      → new.user_id ≡ user.id
      → new.session_status ≡ SessionStatus.active
      → new.expired_at ≡ until
      → session.expired_at ≡ until
      → (generate_access_token l s.jwt user.id user.email.value user.user_type
              (l.format_int session.id)
              (l.format_int device_id)
            >>= λ (access : Str × ℕ).
                ignore (store_session l session.refresh_token_hash session ttl)
                >> pure (record {
                  access_token = access.0;
                  refresh_token = raw;
                  access_token_expires_at = access.1;
                  refresh_token_expires_at = session.expired_at;
                }))
          w
        ≡ (ok out, t)
      → Opens user.id until out t
  unfolding store_session on_redis
  tokens_of s user device_id raw session new until ttl w {out} {t} (row, held, u, _, st, ex, rv)
        hash mine active ends later e =
      after
        (generate_access_token l s.jwt user.id user.email.value user.user_type
          (l.format_int session.id) (l.format_int device_id))
        _ w e
        λ access w1 e1 rest.
          let same = kept_ok _ w (generate_access_token-KeepsDb l s.jwt _ _ _ _ _) e1 in
          let token = ap token_of (ap (λ r. r.0) rest) in
          (
            row,
            ap (λ x. find (has_hash (l.hash_token x)) t.db.sessions) (sym token)
                ∙ ap (λ d. find (has_hash (l.hash_token raw)) d.sessions)
                    (sym (ap (λ r. r.1.db) rest) ∙ same)
                ∙ ap (λ h. find (has_hash h) w.db.sessions) (sym hash)
                ∙ held,
            u ∙ mine,
            st ∙ active,
            rv,
            ex ∙ ends,
            sym (ap expiry_of (ap (λ r. r.0) rest)) ∙ later,
          )

  open_session_ok :
      (s : AuthService) (ctx : Context) (user : User) (device_id now : ℕ) (cmd : LoginCommand)
      (w : World R) {out : TokenOutput} {t : World R}
      → ctx.in_tx ≡ false
      → open_session l s ctx user device_id now cmd w ≡ (ok out, t)
      → Opens user.id (now + session_ttl s.device_policy) out t
  unfolding open_session
  open_session_ok s ctx user device_id now cmd w outer e =
      after (drop_old_session ctx user.id device_id) _ w e λ _ w1 e1 r1.
        after
          (generate_refresh_token l s.jwt user.id user.email.value user.user_type
            (l.format_int device_id))
          _ w1 r1
          λ raw w2 e2 r2.
            after
              (Session.upsert ctx (
                login_session user.id device_id (l.hash_token raw) now (session_ttl s.device_policy)
                  cmd))
              _ w2 r2
              λ session w3 e3 r3.
                let new =
                  login_session user.id device_id (l.hash_token raw) now
                    (session_ttl s.device_policy) cmd in
                let (read, kept) = executed_ok ctx (query_upsert_session new) w2 outer e3 in
                let (stored, _, ends) = query_upsert_session-Stored new w2.now w2.ids w2.db read in
                tokens_of s user device_id raw session new (now + session_ttl s.device_policy)
                  (session_ttl s.device_policy) w3 (subst (Stored new) (sym kept) stored) refl refl
                  refl refl ends r3

  executed_now :
      {A : Type 0} (c : Context) (f : Statement A) (w : World R) {a : A} {w' : World R}
      → c.in_tx ≡ false
      → execute c f w ≡ (ok a, w')
      → w'.now ≡ w.now
  unfolding execute attempt
  executed_now c f w outer e = ground arith

  enter_device_ok :
      (s : AuthService) (ctx : Context) (user : User) (cmd : LoginCommand) (w : World R)
      {out : TokenOutput} {t : World R}
      → ctx.in_tx ≡ false
      → enter_device l s ctx user cmd w ≡ (ok out, t)
      → Opens user.id (w.now + session_ttl s.device_policy) out t
  unfolding enter_device
  enter_device_ok s ctx user cmd w outer e =
      after (Device.list_active_by_user_id ctx user.id) _ w e λ active w1 e1 r1.
        after (Device.get_by_fingerprint ctx user.id (trim l.unicode cmd.device_fingerprint)) _ w1
          r1
          λ exist w2 e2 r2. after (check_device s.device_policy active exist) _ w2 r2 λ _ w3 e3 r3.
            after
              (Device.upsert ctx (
                login_device user.id (trim l.unicode cmd.device_fingerprint) cmd.device_label w.now
                  exist))
              _ w3 r3 λ device w4 e4 r4. open_session_ok s ctx user device.id w.now cmd w4 outer r4

  verified :
      (password hash : Str) (w : World R) {w' : World R}
      → catch (verify_password l password hash) (λ _. fail invalid_credentials) w ≡ (ok tt, w')
      → w'.now ≡ w.now
  unfolding verify_password
  verified password hash w e = ground arith

  -- Outside a transaction, whatever calls fail, if Login returns tokens then the address of the
  -- command is valid and a user row with it is in the tables, and the tables that Login leaves
  -- hold, as the first session with the hash of the returned refresh token, an active session of
  -- that user that is not revoked and expires when the session lifetime of the device policy has
  -- passed since the call, which is also the expiry that Login returns.
  pub login-Opens :
      (s : AuthService) (ctx : Context) (cmd : LoginCommand) (w : World R) {out : TokenOutput}
      → ctx.in_tx ≡ false
      → (login l s ctx cmd w).0 ≡ ok out
      → (email : Email) × (user : UserRow) × (new_email l.unicode l.parse_address cmd.email
          ≡ ok email)
        × (find (λ r. r.email == email.value) w.db.users ≡ some user)
        × Opens user.id (w.now + session_ttl s.device_policy) out (login l s ctx cmd w).1
  unfolding login
  login-Opens s ctx cmd w {out} outer success =
      let (email, valid, rest) =
        lift_ok (new_email l.unicode l.parse_address cmd.email) _ w
          (ap (λ r. (r, (login l s ctx cmd w).1)) success) in
      after (get_by_email ctx l.unicode l.parse_address email) _ w rest λ user w1 e1 r1.
        let ((row, held, same_id, same_status), _) = user_read l ctx email w outer e1 in
        let (allowed, r2) = guard_ok (can_login user.status) invalid_credentials _ w1 r1 in
        after (get_by_user_id ctx user.id) _ w1 r2 λ credential w2 e2 r3.
          after
            (catch (verify_password l cmd.password credential.password_hash)
              (λ _. fail invalid_credentials))
            _ w2 r3
            λ _ w3 e3 r4. (
              email,
              row,
              valid,
              held,
              subst (λ i. Opens i (w.now + session_ttl s.device_policy) out (login l s ctx cmd w).1)
                  same_id
                  (subst
                    (λ n.
                      Opens user.id (n + session_ttl s.device_policy) out (login l s ctx cmd w).1)
                    (verified cmd.password credential.password_hash w2 e3
                      ∙ executed_now ctx _ w1 outer e2
                      ∙ executed_now ctx _ w outer e1)
                    (enter_device_ok s ctx user cmd w3 outer r4)),
            )
