-- ===== src/Identity/Repo/Session/Upserted.antt =====
-- The row that Upsert leaves.
use bookstore_golang.Base.{
  ℕ, ◌≡◌, refl, Bool, true, false, not, ◌&&◌, nat_eq, none, some, List, [], ◌∷◌, ◌++◌, ok, arith,
  All, All-both, any-false, find-none, find, update, any, Bool-cases, Option-cases, inl, inr,
  ==-refl,
}
use bookstore_golang.Base.Text.{str_eq}
use bookstore_golang.Database.{Db}
use bookstore_golang.Identity.Entity.{Session}
use bookstore_golang.Identity.Repo.Session.{
  is_of, has_hash, overwrite, inserted_row, query_upsert_session,
}

find-append_last :
    {A : Type 0} (p : A → Bool) (l : List A) (y : A)
    → All (λ x. p x ≡ false) l
    → p y ≡ true
    → find p (l ++ (y ∷ [])) ≡ some y
unfolding find
find-append_last p [] y h k = ground arith
find-append_last p (x ∷ l) y h k = ground (arith, h.0, find-append_last p l y h.1 k)

-- The row of the device, overwritten, is the first one with the new hash.
find-overwritten :
    (s : Session) (now : ℕ) (l : List Session) (old : Session)
    → All (λ r. (has_hash s.refresh_token_hash r && not (is_of s.user_id s.device_id r)) ≡ false) l
    → find (is_of s.user_id s.device_id) l ≡ some old
    → find
        (has_hash s.refresh_token_hash)
        (update (is_of s.user_id s.device_id) (overwrite s now) l)
      ≡ some (overwrite s now old)
unfolding find update
find-overwritten s now [] old h e = absurd (cc)
find-overwritten s now (x ∷ l) old h e = elim (Bool-cases (is_of s.user_id s.device_id x)) [
  | inl held ↦ ground (arith, ==-refl s.refresh_token_hash)
  | inr other ↦ ground (arith, h.0, find-overwritten s now l old h.1)
]

find-is_of :
    (user_id device_id : ℕ) (l : List Session) (old : Session)
    → find (is_of user_id device_id) l ≡ some old
    → (old.user_id ≡ user_id) × (old.device_id ≡ device_id)
unfolding find
find-is_of user_id device_id [] old e = absurd (cc)
find-is_of user_id device_id (x ∷ l) old e = elim (Bool-cases (is_of user_id device_id x)) [
  | inl held ↦ (ground arith, ground arith)
  | inr other ↦ find-is_of user_id device_id l old (ground arith)
]

-- The row of a session: found by its hash, open, and with the fields of the session.
abbrev pub Stored : Session → Db → Type 0
Stored s d =
    (row : Session) × (find (has_hash s.refresh_token_hash) d.sessions ≡ some row)
    × (row.user_id ≡ s.user_id)
    × (row.device_id ≡ s.device_id)
    × (row.session_status ≡ s.session_status)
    × (row.expired_at ≡ s.expired_at)
    × (row.revoked_at ≡ none)

pub query_upsert_session-Stored :
    (s : Session) (now id : ℕ) (d : Db) {r : Session}
    → (query_upsert_session s now id d).0 ≡ ok r
    → Stored s (query_upsert_session s now id d).1
      × (r.refresh_token_hash ≡ s.refresh_token_hash)
      × (r.expired_at ≡ s.expired_at)
unfolding query_upsert_session
query_upsert_session-Stored s now id d e =
    elim (Bool-cases (
      any (λ r. has_hash s.refresh_token_hash r && not (is_of s.user_id s.device_id r))
        d.sessions)) [
          | inl clash ↦ absurd (ground arith)
          | inr free ↦ elim (Option-cases (find (is_of s.user_id s.device_id) d.sessions)) [
            | inl new ↦
                rw (free, new)
                  (
                    (
                      inserted_row s now id,
                      find-append_last (has_hash s.refresh_token_hash) d.sessions
                          (inserted_row s now id)
                          (All-both d.sessions (λ x a b. ground arith) (any-false _ d.sessions free)
                            (find-none _ d.sessions new))
                          (==-refl s.refresh_token_hash),
                      refl,
                      refl,
                      refl,
                      refl,
                      refl,
                    ),
                    ground arith,
                    ground arith,
                  )
            | inr (old, held) ↦
                rw (free, held)
                  (
                    (
                      overwrite s now old,
                      find-overwritten s now d.sessions old (any-false _ d.sessions free) held,
                      (find-is_of s.user_id s.device_id d.sessions old held).0,
                      (find-is_of s.user_id s.device_id d.sessions old held).1,
                      refl,
                      refl,
                      refl,
                    ),
                    ground arith,
                    ground arith,
                  )
          ]
        ]
