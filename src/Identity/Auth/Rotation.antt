-- ===== src/Identity/Auth/Rotation.antt =====
-- The transaction that gives a session its next refresh token.
use bookstore_golang.Base.{
  ℕ, ◌+◌, ◌≡◌, true, false, not, ◌&&◌, ◌==◌, nat_eq, some, [], ok, any, find, update, arith,
}
use bookstore_golang.Base.Text.{Str, str_eq}
use bookstore_golang.Platform.Redis.{Redis}
use bookstore_golang.Database.{Context, World, Db, execute, attempt}
use bookstore_golang.Identity.Entity.{Session, rotate}
use bookstore_golang.Identity.Repo.Session.{
  has_hash, query_get_by_refresh_token_hash, query_update_session,
}
use bookstore_golang.Identity.Auth.{AuthService, session_ttl}
use bookstore_golang.Identity.Auth.Refresh.{rotate_tx}

module _ {V : Type 0} {R : Redis V} where
  -- In an open transaction whose calls do not fail, the row that is found by the old hash gets the
  -- new hash and a new expiry, if no other row holds the new hash; that the row is revoked or has
  -- run out does not stop it.
  pub rotate_tx_ok :
      (s : AuthService) (old_hash new_hash : Str) (now : ℕ) (c : Context) (w : World R) {d : Db}
      {found : Session}
      → c.in_tx ≡ true
      → w.faults ≡ []
      → w.open_tx ≡ some d
      → find (has_hash old_hash) d.sessions ≡ some found
      → any (λ r. has_hash new_hash r && not (r.id == found.id)) d.sessions ≡ false
      → let expired_at = now + session_ttl s.device_policy in
        let r = rotate_tx s old_hash new_hash now c w in
        (r.0 ≡ ok (record (rotate found new_hash now) { expired_at = expired_at }))
        × (r.1.open_tx
            ≡ some (record d {
              sessions =
                  update
                    (λ r. r.id == found.id)
                    (λ r. record r {
                      refresh_token_hash = new_hash;
                      expired_at = expired_at;
                      last_seen_at = now;
                      updated_at = w.now;
                    })
                    d.sessions;
            }))
  unfolding rotate_tx execute attempt rotate query_get_by_refresh_token_hash query_update_session
  rotate_tx_ok s old_hash new_hash now c w {d} {found} inside calm opened held fresh = ground arith
