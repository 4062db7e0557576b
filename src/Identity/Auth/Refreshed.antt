-- ===== src/Identity/Auth/Refreshed.antt =====
-- A refresh takes effect on the tables whole or not at all.
use bookstore_golang.Base.{
  ℕ, ◌≡◌, refl, ◌∙◌, true, Option, none, some, Result, ok, err, fail, catch, arith,
}
use bookstore_golang.Base.Text.{Str}
use bookstore_golang.Errors.{Error, invalid_credentials}
use bookstore_golang.Platform.Redis.{Redis}
use bookstore_golang.Database.{Context, World, now_of}
use bookstore_golang.Database.Tx.{within_transaction}
use bookstore_golang.Database.Tx.Atomic.{KeepsDb, is_err, execute-KeepsDb}
use bookstore_golang.Database.Tx.Rules.{
  Atomic, >>=-KeepsDb, catch-KeepsDb, >>=-Atomic, >>=-Sure, within_transaction-Atomic,
}
use bookstore_golang.Identity.Entity.{Session, rotate}
use bookstore_golang.Identity.Library.{Library}
use bookstore_golang.Identity.Tokens.{generate_access_token, generate_refresh_token}
use bookstore_golang.Identity.Cache.{get_session}
use bookstore_golang.Identity.Repo.User.{get_by_id}
use bookstore_golang.Identity.Repo.Session.{get_by_refresh_token_hash}
use bookstore_golang.Identity.Auth.{AuthService}
use bookstore_golang.Identity.Auth.Refresh.{
  fall_back, find_session, validate_session, rotate_tx, refresh_token,
}
use bookstore_golang.Identity.Keeps.{
  get_session-KeepsDb, get_by_id-KeepsDb, generate_access_token-KeepsDb,
  generate_refresh_token-KeepsDb, get_by_refresh_token_hash-KeepsDb,
}

module _ {V : Type 0} {R : Redis V} where
  by_hash-KeepsDb :
      (ctx : Context) (hash : Str)
      → KeepsDb {R = R} (catch (get_by_refresh_token_hash ctx hash) (λ _. fail invalid_credentials))
  by_hash-KeepsDb ctx hash =
      catch-KeepsDb _ _ (get_by_refresh_token_hash-KeepsDb ctx hash)
        (λ e. record { kept = λ w. refl })

  pub validate_session-KeepsDb :
      (session : Session) (now : ℕ) → KeepsDb {R = R} (validate_session session now)
  unfolding validate_session
  validate_session-KeepsDb session now = record { kept = λ w. ground arith }

  rotate_tx-KeepsDb :
      (s : AuthService) (old_hash new_hash : Str) (now : ℕ) (c : Context)
      → c.in_tx ≡ true
      → KeepsDb {R = R} (rotate_tx s old_hash new_hash now c)
  unfolding rotate_tx rotate
  rotate_tx-KeepsDb s old_hash new_hash now c inside =
      >>=-KeepsDb (catch (get_by_refresh_token_hash c old_hash) (λ _. fail invalid_credentials)) _
        (by_hash-KeepsDb c old_hash)
        λ found. record {
          kept = λ w.
              (>>=-KeepsDb _ _ (execute-KeepsDb c _ inside) λ _. record { kept = λ w. refl }).kept
                w;
        }

module _ {V : Type 0} {R : Redis V} (l : Library V) where
  fall_back-KeepsDb :
      (ctx : Context) (hash : Str) (r : Result Error (Option Session) × World R)
      → (fall_back l ctx hash r).1.db ≡ r.1.db
  fall_back-KeepsDb ctx hash (ok (some s), w) = refl
  fall_back-KeepsDb ctx hash (ok none, w) = (by_hash-KeepsDb ctx hash).kept w
  fall_back-KeepsDb ctx hash (err e, w) = (by_hash-KeepsDb ctx hash).kept w

  pub find_session-KeepsDb :
      (ctx : Context) (hash : Str) → KeepsDb {R = R} (find_session l ctx hash)
  unfolding find_session
  find_session-KeepsDb ctx hash = record {
    kept = λ w.
        fall_back-KeepsDb ctx hash (get_session l hash w) ∙ (get_session-KeepsDb l hash).kept w;
  }

  refresh_token-Atomic :
      (s : AuthService) (ctx : Context) (raw : Str) → Atomic {R = R} (refresh_token l s ctx raw)
  unfolding refresh_token
  refresh_token-Atomic s ctx raw =
      >>=-Atomic now_of _ (record { kept = λ w. refl })
        λ now.
          >>=-Atomic (find_session l ctx (l.hash_token raw)) _
            (find_session-KeepsDb ctx (l.hash_token raw))
            λ session.
              >>=-Atomic (validate_session session now) _ (validate_session-KeepsDb session now)
                λ _.
                  >>=-Atomic (get_by_id ctx l.unicode l.parse_address session.user_id) _
                    (get_by_id-KeepsDb ctx l session.user_id)
                    λ user.
                      >>=-Atomic
                        (generate_refresh_token l s.jwt user.id user.email.value user.user_type
                          (l.format_int session.device_id))
                        _ (generate_refresh_token-KeepsDb l s.jwt _ _ _ _)
                        λ new_raw.
                          >>=-Atomic
                            (generate_access_token l s.jwt user.id user.email.value user.user_type
                              (l.format_int session.id) (l.format_int session.device_id))
                            _ (generate_access_token-KeepsDb l s.jwt _ _ _ _ _)
                            λ access.
                              >>=-Sure
                                (within_transaction ctx
                                  (rotate_tx s (l.hash_token raw) (l.hash_token new_raw) now))
                                _
                                (within_transaction-Atomic ctx _ (
                                  rotate_tx-KeepsDb s (l.hash_token raw) (l.hash_token new_raw)
                                    now))
                                λ rotated. record { ends_well = λ w. refl }

  -- If RefreshToken returns an error, whatever call failed, the tables are what they were: the old
  -- token is still the one of its session.
  pub refresh_token_rolls_back :
      (s : AuthService) (ctx : Context) (raw : Str) (w : World R)
      → is_err (refresh_token l s ctx raw w).0 ≡ true
      → (refresh_token l s ctx raw w).1.db ≡ w.db
  refresh_token_rolls_back s ctx raw w failed = (refresh_token-Atomic s ctx raw).restored w failed
