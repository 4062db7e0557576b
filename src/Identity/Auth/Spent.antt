-- ===== src/Identity/Auth/Spent.antt =====
-- A refresh token is spent by its use.
use bookstore_golang.Base.{
  ℕ, ◌-◌, ◌≡◌, pure, ◌>>◌, ◌>>=◌, refl, sym, ap, subst, ◌∙◌, true, false, Result, ok, err, Action,
  ignore, ◌==◌, nat_eq, >>=-eq-ok,
}
use bookstore_golang.Base.Text.{Str, str_eq}
use bookstore_golang.Errors.{Error}
use bookstore_golang.Platform.Redis.{Redis}
use bookstore_golang.Database.{Context, World, on_redis, now_of}
use bookstore_golang.Database.Tx.{within_transaction}
use bookstore_golang.Database.Tx.Rules.{after_kept}
use bookstore_golang.Database.Tx.Atomic.{is_err}
use bookstore_golang.Identity.Entity.{Session}
use bookstore_golang.Identity.Library.{Library}
use bookstore_golang.Identity.Tokens.{generate_access_token, generate_refresh_token}
use bookstore_golang.Identity.Cache.{store_session, delete_session}
use bookstore_golang.Identity.Repo.User.{get_by_id}
use bookstore_golang.Identity.Repo.Session.Unique.{IsValid}
use bookstore_golang.Identity.Auth.{token_of, AuthService, TokenOutput}
use bookstore_golang.Identity.Auth.Refresh.{
  find_session, validate_session, rotate_tx, refresh_token,
}
use bookstore_golang.Identity.Auth.Refreshed.{find_session-KeepsDb, validate_session-KeepsDb}
use bookstore_golang.Identity.Keeps.{
  get_by_id-KeepsDb, generate_access_token-KeepsDb, generate_refresh_token-KeepsDb,
}
use bookstore_golang.Identity.Auth.Rehashed.{Absent, spent, not_again}

module _ {V : Type 0} {R : Redis V} (l : Library V) (s : AuthService) (ctx : Context) where
  abbrev rotation : Str → Str → ℕ → Action (World R) Error Session
  rotation raw new_raw now =
      within_transaction ctx (rotate_tx s (l.hash_token raw) (l.hash_token new_raw) now)

  -- A refresh rests on a rotation of the tables as they were, and leaves what that left.
  abbrev Rotated : Str → World R → TokenOutput → World R → Type 0
  Rotated raw w out t =
      (w' : World R) × (now : ℕ) × (a : Session) × (w'.db ≡ w.db)
      × ((rotation raw out.refresh_token now w').0 ≡ ok a)
      × (t.db ≡ (rotation raw out.refresh_token now w').1.db)

  rest_of_refresh :
      (raw new_raw access : Str) (expired_at now : ℕ) (w w' : World R) {out : TokenOutput}
      {t : World R}
      → w'.db ≡ w.db
      → (rotation raw new_raw now >>= λ (rotated : Session).
            ignore (delete_session (l.hash_token raw))
            >> (now_of >>= λ later.
                ignore (store_session l (l.hash_token new_raw) rotated (rotated.expired_at - later))
                >> pure (record {
                  access_token = access;
                  refresh_token = new_raw;
                  access_token_expires_at = expired_at;
                  refresh_token_expires_at = rotated.expired_at;
                })))
          w'
        ≡ (ok out, t)
      → Rotated raw w out t
  unfolding delete_session store_session on_redis
  rest_of_refresh raw new_raw access expired_at now w w' same e =
      let (a, w6, e6, last) = >>=-eq-ok (rotation raw new_raw now) _ w' e in
      rw (sym (ap token_of (ap (λ r. r.0) last))) (
        w',
        now,
        a,
        same,
        ap (λ r. r.0) e6,
        sym (ap (λ r. r.1.db) last) ∙ sym (ap (λ r. r.1.db) e6),
      )

  refreshed :
      (raw : Str) (w : World R) {out : TokenOutput} {t : World R}
      → refresh_token l s ctx raw w ≡ (ok out, t)
      → Rotated raw w out t
  unfolding refresh_token
  refreshed raw w {out} {t} e =
      after_kept (find_session l ctx (l.hash_token raw)) _ w w.db
        (find_session-KeepsDb l ctx (l.hash_token raw)) refl e
        λ session w1 d1 r1.
          after_kept (validate_session session w.now) _ w1 w.db
            (validate_session-KeepsDb session w.now) d1 r1
            λ _ w2 d2 r2.
              after_kept (get_by_id ctx l.unicode l.parse_address session.user_id) _ w2 w.db
                (get_by_id-KeepsDb ctx l session.user_id) d2 r2
                λ user w3 d3 r3.
                  after_kept
                    (generate_refresh_token l s.jwt user.id user.email.value user.user_type
                      (l.format_int session.device_id))
                    _ w3 w.db (generate_refresh_token-KeepsDb l s.jwt _ _ _ _) d3 r3
                    λ new_raw w4 d4 r4.
                      after_kept
                        (generate_access_token l s.jwt user.id user.email.value user.user_type
                          (l.format_int session.id) (l.format_int session.device_id))
                        _ w4 w.db (generate_access_token-KeepsDb l s.jwt _ _ _ _ _) d4 r4
                        λ access w5 d5 r5.
                          rest_of_refresh raw new_raw access.0 access.1 w.now w w5 d5 r5

  -- Where no session has the hash of the token, a refresh ends in an error.
  unknown_refused :
      (raw : Str) (w : World R) (r : Result Error TokenOutput × World R)
      → ctx.in_tx ≡ false
      → Absent (l.hash_token raw) w.db.sessions
      → refresh_token l s ctx raw w ≡ r
      → is_err r.0 ≡ true
  unknown_refused raw w (err e, t) outer gone ended = refl
  unknown_refused raw w (ok out, t) outer gone ended =
      let (w', now, a, same, done, left) = refreshed raw w ended in
      absurd (
        not_again s (l.hash_token raw) (l.hash_token out.refresh_token) now ctx w' outer
          (subst (λ d. Absent (l.hash_token raw) d.sessions) (sym same) gone) done)

  -- After a refresh that ended well no session has the hash of the token.
  refresh_token-Absent :
      (raw : Str) (next : ℕ) (w : World R) {out : TokenOutput} {t : World R}
      → ctx.in_tx ≡ false
      → IsValid next w.db.sessions
      → refresh_token l s ctx raw w ≡ (ok out, t)
      → (l.hash_token out.refresh_token == l.hash_token raw) ≡ false
      → Absent (l.hash_token raw) t.db.sessions
  refresh_token-Absent raw next w {out} outer v e fresh =
      let (w', now, a, same, done, left) = refreshed raw w e in
      subst (λ d. Absent (l.hash_token raw) d.sessions) (sym left)
        (spent s (l.hash_token raw) (l.hash_token out.refresh_token) now next ctx w' outer
          (subst (λ d. IsValid next d.sessions) (sym same) v) fresh done)

  -- Outside a transaction, where no two sessions of the table have one id or one token hash: if
  -- RefreshToken returned tokens, whatever calls failed, and the new refresh token has another
  -- hash than the old one, then RefreshToken of the old token returns an error on the sessions
  -- that the first call left, whatever Redis still holds, the other tables hold, and whatever
  -- calls fail.
  pub refresh_token_once :
      (raw : Str) (next : ℕ) (w w' : World R) {out : TokenOutput}
      → ctx.in_tx ≡ false
      → IsValid next w.db.sessions
      → (refresh_token l s ctx raw w).0 ≡ ok out
      → (l.hash_token out.refresh_token == l.hash_token raw) ≡ false
      → w'.db.sessions ≡ (refresh_token l s ctx raw w).1.db.sessions
      → is_err (refresh_token l s ctx raw w').0 ≡ true
  refresh_token_once raw next w w' outer v done fresh same =
      unknown_refused raw w' (refresh_token l s ctx raw w') outer
        (subst (Absent (l.hash_token raw)) (sym same) (
          refresh_token-Absent raw next w outer v
            (ap (λ r. (r, (refresh_token l s ctx raw w).1)) done) fresh))
        refl
