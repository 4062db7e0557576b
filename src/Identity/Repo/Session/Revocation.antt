-- ===== src/Identity/Repo/Session/Revocation.antt =====
-- What is left of a user's sessions after they are revoked.
use bookstore_golang.Base.{
  ℕ, ◌≤◌, ◌≡◌, refl, not, ◌&&◌, ◌==◌, nat_eq, some, List, [], ◌∷◌, ok, arith, filter, update,
  order_desc,
}
use bookstore_golang.Database.{Db}
use bookstore_golang.Identity.Entity.{Session}
use bookstore_golang.Identity.Repo.Session.{
  is_live, is_open, revoked_row, query_revoke_all_by_user_id, query_list_active_by_user_id,
  query_revoke_all_except, session_status_eq,
}

none_live :
    (user_id revoked_at now later : ℕ) (l : List Session)
    → now ≤ later
    → filter (is_live user_id later) (
        update
          (is_live user_id now)
          (λ s. record s { revoked_at = some revoked_at; updated_at = now })
          l)
      ≡ []
unfolding filter update
none_live user_id revoked_at now later [] h = refl
none_live user_id revoked_at now later (s ∷ l) h =
    ground (arith, none_live user_id revoked_at now later l h)

-- After RevokeAllByUserID the user has no active session, at that time or later.
pub revoke_all-list_active :
    (user_id revoked_at now later id id' : ℕ) (d : Db)
    → now ≤ later
    → (query_list_active_by_user_id user_id later id'
        (query_revoke_all_by_user_id user_id revoked_at now id d).1).0
      ≡ ok []
unfolding query_list_active_by_user_id query_revoke_all_by_user_id order_desc
revoke_all-list_active user_id revoked_at now later id id' d h =
    rw (none_live user_id revoked_at now later d.sessions h) refl

kept_alone :
    (user_id current revoked_at now : ℕ) (l : List Session)
    → filter
        (λ s. s.user_id == user_id && (not (s.id == current) && is_open s))
        (update
          (λ s. s.user_id == user_id && (not (s.id == current) && is_open s))
          (revoked_row revoked_at now)
          l)
      ≡ []
unfolding filter update
kept_alone user_id current revoked_at now [] = refl
kept_alone user_id current revoked_at now (s ∷ l) =
    ground (arith, kept_alone user_id current revoked_at now l)

kept_same :
    (user_id current revoked_at now : ℕ) (l : List Session)
    → filter
        (λ s. s.id == current)
        (update
          (λ s. s.user_id == user_id && (not (s.id == current) && is_open s))
          (revoked_row revoked_at now)
          l)
      ≡ filter (λ s. s.id == current) l
unfolding filter update
kept_same user_id current revoked_at now [] = refl
kept_same user_id current revoked_at now (s ∷ l) =
    ground (arith, kept_same user_id current revoked_at now l)

-- After RevokeAllExcept no session of the user but the given one is open, and the rows of the
-- given id are as they were.
revoke_all_except_lem :
    (user_id current revoked_at now id : ℕ) (d : Db)
    → let d' = (query_revoke_all_except user_id current revoked_at now id d).1 in
      (filter (λ s. s.user_id == user_id && (not (s.id == current) && is_open s)) d'.sessions ≡ [])
      × (filter (λ s. s.id == current) d'.sessions ≡ filter (λ s. s.id == current) d.sessions)
unfolding query_revoke_all_except
revoke_all_except_lem user_id current revoked_at now id d = (
  kept_alone user_id current revoked_at now d.sessions,
  kept_same user_id current revoked_at now d.sessions,
)
