-- ===== src/Identity/Auth/Rehashed.antt =====
-- The row of a session whose token is renewed, and the hash that is gone from the table.
use bookstore_golang.Base.{
  ℕ, ◌+◌, ◌≡◌, pure, ◌>>◌, Bool-cases, inl, inr, ==-refl, refl, ap, true, false, some, ok, Action,
  fail, catch, ◌==◌, nat_eq, >>=-eq-ok, find, update, All, All-weaken, All-update, Pairwise, List,
  [], ◌∷◌, arith,
}
use bookstore_golang.Base.Text.{Str, str_eq}
use bookstore_golang.Errors.{Error, invalid_credentials}
use bookstore_golang.Platform.Redis.{Redis}
use bookstore_golang.Database.{Context, World, Db, Statement, execute, attempt}
use bookstore_golang.Database.Tx.{within_transaction}
use bookstore_golang.Database.Tx.Atomic.{within_transaction_ok}
use bookstore_golang.Identity.Entity.{Session, rotate}
use bookstore_golang.Identity.Repo.Session.{
  has_hash, query_get_by_refresh_token_hash, query_update_session, get_by_refresh_token_hash,
  update_session,
}
use bookstore_golang.Identity.Repo.Session.Unique.{IsValid, IsApart}
use bookstore_golang.Identity.Auth.{AuthService, session_ttl}
use bookstore_golang.Identity.Auth.Refresh.{rotate_tx}

-- No row has the hash.
abbrev pub Absent : Str → List Session → Type 0
Absent hash = All (λ r. has_hash hash r ≡ false)

-- The row of a session with its next hash.
abbrev pub rehashed : Session → ℕ → Session → Session
rehashed s now r = record r {
  refresh_token_hash = s.refresh_token_hash;
  expired_at = s.expired_at;
  last_seen_at = s.last_seen_at;
  updated_at = now;
}

-- A session with its next hash and expiry.
abbrev pub renewed : AuthService → Session → Str → ℕ → Session
renewed s found new_hash now = record found {
  refresh_token_hash = new_hash;
  expired_at = now + session_ttl s.device_policy;
  last_seen_at = now;
}

pub find-Absent :
    (hash : Str) (l : List Session) (s : Session)
    → Absent hash l
    → find (has_hash hash) l ≡ some s
    → ⊥
unfolding find
find-Absent hash [] s h e = absurd (cc)
find-Absent hash (r ∷ l) s h e = find-Absent hash l s h.1 (ground (arith, h.0))

-- Rows that are apart from one that has the hash do not have it.
pub others_absent :
    (hash : Str) (l : List Session) (found : Session)
    → Pairwise IsApart l
    → find (has_hash hash) l ≡ some found
    → All (λ r. (r.id == found.id) ≡ false → has_hash hash r ≡ false) l
unfolding find
others_absent hash [] found v e = tt
others_absent hash (r ∷ l) found v e = elim (Bool-cases (has_hash hash r)) [
  | inl held ↦ (λ p. ground (arith, ==-refl r.id), All-weaken l (λ t a p. ground (arith, a)) v.0)
  | inr other ↦ (λ p. other, others_absent hash l found v.1 (ground arith))
]

pub rehashed-Absent :
    (hash : Str) (s : Session) (now : ℕ) (l : List Session)
    → (s.refresh_token_hash == hash) ≡ false
    → All (λ r. (r.id == s.id) ≡ false → has_hash hash r ≡ false) l
    → Absent hash (update (λ r. r.id == s.id) (rehashed s now) l)
rehashed-Absent hash s now l other h =
    All-update (λ r. has_hash hash r ≡ false) (λ r. r.id == s.id) (rehashed s now) l
      (λ r k. ground (arith, k)) h

module _ {V : Type 0} {R : Redis V} where
  pub executed_in :
      {A : Type 0} (c : Context) (f : Statement A) (w : World R) {d : Db} {a : A} {w' : World R}
      → c.in_tx ≡ true
      → w.open_tx ≡ some d
      → execute c f w ≡ (ok a, w')
      → ((f w.now w.ids d).0 ≡ ok a) × (w'.open_tx ≡ some (f w.now w.ids d).1)
  unfolding execute attempt
  executed_in c f w inside opened e = (ground arith, ground arith)

  pub catch_ok :
      {A : Type 0} (m : Action (World R) Error A) (e : Error) (w : World R) {a : A} {w' : World R}
      → catch m (λ _. fail e) w ≡ (ok a, w')
      → m w ≡ (ok a, w')
  catch_ok m e w h = ground arith

  pub found_by_hash :
      (c : Context) (hash : Str) (w : World R) {d : Db} {found : Session} {w' : World R}
      → c.in_tx ≡ true
      → w.open_tx ≡ some d
      → catch (get_by_refresh_token_hash c hash) (λ _. fail invalid_credentials) w ≡ (ok found, w')
      → (find (has_hash hash) d.sessions ≡ some found) × (w'.open_tx ≡ some d)
  unfolding query_get_by_refresh_token_hash
  found_by_hash c hash w inside opened e =
      let (held, opened') =
        executed_in c (query_get_by_refresh_token_hash hash) w inside opened
          (catch_ok (get_by_refresh_token_hash c hash) invalid_credentials w e) in
      (ground (arith, held), opened')

  pub stored :
      (c : Context) (s : Session) (w : World R) {d d' : Db} {a : Session} {t : World R}
      → c.in_tx ≡ true
      → w.open_tx ≡ some d
      → (update_session c s >> pure s) w ≡ (ok a, t)
      → t.open_tx ≡ some d'
      → d'.sessions ≡ update (λ r. r.id == s.id) (rehashed s w.now) d.sessions
  unfolding query_update_session
  stored c s w {d = d} inside opened e left =
      let (_, w2, e2, last) = >>=-eq-ok (update_session c s) (λ _. pure s) w e in
      let (held, opened') = executed_in c (query_update_session s) w inside opened e2 in
      ground (arith, held, opened', last)

  -- What a rotation that ended well has found and left.
  pub rotated :
      (s : AuthService) (old_hash new_hash : Str) (now : ℕ) (c : Context) (w : World R) {d d' : Db}
      {a : Session} {t : World R}
      → c.in_tx ≡ true
      → w.open_tx ≡ some d
      → rotate_tx s old_hash new_hash now c w ≡ (ok a, t)
      → t.open_tx ≡ some d'
      → (r : Session) × (later : ℕ) × (find (has_hash old_hash) d.sessions ≡ some r)
        × (d'.sessions
            ≡ update (λ x. x.id == r.id) (rehashed (renewed s r new_hash now) later) d.sessions)
  unfolding rotate_tx rotate
  rotated s old_hash new_hash now c w inside opened done left =
      let (found, w1, e1, rest) =
        >>=-eq-ok (catch (get_by_refresh_token_hash c old_hash) (λ _. fail invalid_credentials)) _ w
          done in
      let (held, opened1) = found_by_hash c old_hash w inside opened e1 in
      (found, w1.now, held, stored c (renewed s found new_hash now) w1 inside opened1 rest left)

  -- After a rotation that ended well no session has the old hash.
  pub spent :
      (s : AuthService) (old_hash new_hash : Str) (now next : ℕ) (c : Context) (w : World R)
      {a : Session}
      → c.in_tx ≡ false
      → IsValid next w.db.sessions
      → (new_hash == old_hash) ≡ false
      → (within_transaction c (rotate_tx s old_hash new_hash now) w).0 ≡ ok a
      → Absent old_hash (within_transaction c (rotate_tx s old_hash new_hash now) w).1.db.sessions
  spent s old_hash new_hash now next c w outer v fresh done =
      let (w', opened, same, ended, left) =
        within_transaction_ok c (rotate_tx s old_hash new_hash now) w outer done in
      let (r, later, held, kept) =
        rotated s old_hash new_hash now (record c { in_tx = true }) w' refl opened
          (ap (λ x. (x, (rotate_tx s old_hash new_hash now (record c { in_tx = true }) w').1))
            ended)
          left in
      rw kept (
        rehashed-Absent old_hash (renewed s r new_hash now) later w.db.sessions fresh
          (others_absent old_hash w.db.sessions r v.apart held))

  -- Without a session that has the old hash no rotation ends well.
  pub not_again :
      (s : AuthService) (old_hash new_hash : Str) (now : ℕ) (c : Context) (w : World R)
      {a : Session}
      → c.in_tx ≡ false
      → Absent old_hash w.db.sessions
      → (within_transaction c (rotate_tx s old_hash new_hash now) w).0 ≡ ok a
      → ⊥
  not_again s old_hash new_hash now c w outer gone done =
      let (w', opened, same, ended, left) =
        within_transaction_ok c (rotate_tx s old_hash new_hash now) w outer done in
      let (r, later, held, kept) =
        rotated s old_hash new_hash now (record c { in_tx = true }) w' refl opened
          (ap (λ x. (x, (rotate_tx s old_hash new_hash now (record c { in_tx = true }) w').1))
            ended)
          left in
      find-Absent old_hash w.db.sessions r gone held
