-- ===== src/Identity/Auth/Refresh.antt =====
-- `RefreshToken`
use bookstore_golang.Base.{
  ℕ, ◌+◌, ◌-◌, not, ◌||◌, Option, none, some, Result, ok, err, Action, pure, fail, guard, catch,
  ignore, ◌>>=◌, ◌>>◌, ◌==◌,
}
use bookstore_golang.Base.Text.{Str}
use bookstore_golang.Errors.{Error, invalid_credentials, session_revoked, session_expired}
use bookstore_golang.Platform.Redis.{Redis}
use bookstore_golang.Database.{Context, World, now_of}
use bookstore_golang.Database.Tx.{within_transaction}
use bookstore_golang.Identity.Entity.{Session, SessionStatus, is_revoked, is_expired, rotate}
use bookstore_golang.Identity.Library.{Library}
use bookstore_golang.Identity.Tokens.{generate_access_token, generate_refresh_token}
use bookstore_golang.Identity.Cache.{get_session, store_session, delete_session}
use bookstore_golang.Identity.Repo.User.{get_by_id}
use bookstore_golang.Identity.Repo.Session.{
  session_status_eq, get_by_refresh_token_hash, update_session,
}
use bookstore_golang.Identity.Auth.{AuthService, TokenOutput, session_ttl}

module _ {V : Type 0} {R : Redis V} (l : Library V) where
  abbrev pub fall_back :
      Context → Str → Result Error (Option Session) × World R → Result Error Session × World R
  fall_back ctx hash (ok (some s), w) = (ok s, w)
  fall_back ctx hash (ok none, w) =
      catch (get_by_refresh_token_hash ctx hash) (λ _. fail invalid_credentials) w
  fall_back ctx hash (err e, w) =
      catch (get_by_refresh_token_hash ctx hash) (λ _. fail invalid_credentials) w

  -- Step 1: the cached session, or else the table's.
  unfoldable pub find_session : Context → Str → Action (World R) Error Session
  unfolding get_session
  find_session ctx hash w = fall_back ctx hash (get_session l hash w)

-- Step 2
unfoldable pub validate_session : Session → ℕ → {S : Type 0} → Action S Error (Unit {0})
validate_session session now = do
  guard (not (is_revoked session || not (session.session_status == SessionStatus.active)))
      session_revoked
  guard (not (is_expired session now)) session_expired

module _ {V : Type 0} {R : Redis V} where
  -- Step 5: the row of the old hash gets the new one.
  unfoldable pub rotate_tx : AuthService → Str → Str → ℕ → Context → Action (World R) Error Session
  unfolding rotate
  rotate_tx s old_hash new_hash now tx_ctx = do
    found ← catch (get_by_refresh_token_hash tx_ctx old_hash) (λ _. fail invalid_credentials)
    let session = record (rotate found new_hash now) {
      expired_at = now + session_ttl s.device_policy;
    }
    update_session tx_ctx session
    pure session

module _ {V : Type 0} {R : Redis V} (l : Library V) (s : AuthService) (ctx : Context) where
  -- The store of step 6 runs in a goroutine; here it comes before the return.
  unfoldable pub refresh_token : Str → Action (World R) Error TokenOutput
  unfolding find_session validate_session rotate_tx within_transaction generate_refresh_token
      generate_access_token store_session delete_session
  refresh_token raw = do
    let old_hash = l.hash_token raw
    now ← now_of
    session ← find_session l ctx old_hash
    validate_session session now
    user ← get_by_id ctx l.unicode l.parse_address session.user_id
    new_raw ←
        generate_refresh_token l s.jwt user.id user.email.value user.user_type
          (l.format_int session.device_id)
    let new_hash = l.hash_token new_raw
    (new_access_token, expired_at) ←
        generate_access_token l s.jwt user.id user.email.value user.user_type
          (l.format_int session.id) (l.format_int session.device_id)
    rotated ← within_transaction ctx (rotate_tx s old_hash new_hash now)
    ignore (delete_session old_hash)
    later ← now_of
    ignore (store_session l new_hash rotated (rotated.expired_at - later))
    pure (record {
      access_token = new_access_token;
      refresh_token = new_raw;
      access_token_expires_at = expired_at;
      refresh_token_expires_at = rotated.expired_at;
    })
