-- ===== src/Identity/Entity/Lifecycle.antt =====
-- The entities' methods against the life of an account and of a session.
use bookstore_golang.Base.{ℕ, ◌≤◌, ◌≡◌, ◌≢◌, ◌↔◌, ◌⊎◌, inl, inr, refl, ok, err, none, arith, Bool}
use mathlib.Core.Path.{ap₂, ap}
use bookstore_golang.Base.{[], ◌∷◌}
use bookstore_golang.Base.Text.Trim.{
  trim-id, map-FrontVisible, map-BackVisible, trim-FrontVisible, trim-BackVisible,
}
use bookstore_golang.Base.Text.{Str, Unicode, IsUnicode, trim, lower}
use bookstore_golang.Errors.{session_revoked, invalid_status_transition}
use bookstore_golang.Identity.Status.{UserStatus, can_transition_to}
use bookstore_golang.Identity.Status.Transitions.{Transition, can_transition_to-cases}
use bookstore_golang.Identity.Entity.{
  User, Session, Email, move_to, new_email, mark_email_verified, suspend, ban, revoke_session,
  is_useable, rotate,
}

move_to-Transition :
    (u : User) (next : UserStatus) (now : ℕ)
    → let r = move_to u next now (can_transition_to u.status next) in
      ((r.0 ≡ ok tt)
        × (Transition u.status next)
        × (r.1 ≡ record u { status = next; updated_at = now }))
      ⊎ (r ≡ (err invalid_status_transition, u))
move_to-Transition u next now = elim (can_transition_to-cases u.status next) [
  | inl (e, t) ↦ rw e (inl (refl, t, refl))
  | inr e ↦ rw e (inr refl)
]

-- Suspend and Ban take the step of that name and change the status and the time alone, or refuse
-- and change nothing.
suspend-ban-Transition :
    (u : User) (now : ℕ)
    → ((((suspend u now).0 ≡ ok tt)
          × (Transition u.status UserStatus.suspended)
          × ((suspend u now).1 ≡ record u { status = UserStatus.suspended; updated_at = now }))
        ⊎ (suspend u now ≡ (err invalid_status_transition, u)))
      × ((((ban u now).0 ≡ ok tt)
            × (Transition u.status UserStatus.banned)
            × ((ban u now).1 ≡ record u { status = UserStatus.banned; updated_at = now }))
          ⊎ (ban u now ≡ (err invalid_status_transition, u)))
unfolding suspend ban
suspend-ban-Transition u now =
    (move_to-Transition u UserStatus.suspended now, move_to-Transition u UserStatus.banned now)

Transition-banned : {s t : UserStatus} → Transition s t → s ≢ UserStatus.banned
Transition-banned Transition.verify e = cc
Transition-banned Transition.suspend e = cc
Transition-banned Transition.ban e = cc
Transition-banned Transition.reinstate e = cc
Transition-banned Transition.ban_suspended e = cc

-- The MarkEmailVerified of the entity makes a banned account whose address was not verified
-- active, which is no step of the life of an account.
mark_email_verified_unlocks :
    (u : User) (now : ℕ)
    → u.email_verified_at ≡ none
    → u.status ≡ UserStatus.banned
    → ((mark_email_verified u now).status ≡ UserStatus.active)
      × (¬ Transition u.status (mark_email_verified u now).status)
unfolding mark_email_verified
mark_email_verified_unlocks u now fresh banned = (ground arith, λ t. Transition-banned t banned)

-- A session can be used exactly when it is not revoked and its time has not passed.
is_useable-ok_iff :
    (s : Session) (now : ℕ)
    → (is_useable s now ≡ ok tt) ↔ ((s.revoked_at ≡ none) × (now ≤ s.expired_at))
unfolding is_useable
is_useable-ok_iff s now = (λ h. ground arith, λ h. ground arith)

-- A revoked session is refused as revoked at every later time, also after a rotation, and keeps
-- the time of its first revocation.
revoke_session_final :
    (s : Session) (hash : Str) (now later : ℕ)
    → (is_useable (revoke_session s now) later ≡ err session_revoked)
      × (is_useable (rotate (revoke_session s now) hash later) later ≡ err session_revoked)
      × (revoke_session (revoke_session s now) later ≡ revoke_session s now)
unfolding is_useable revoke_session rotate
revoke_session_final s hash now later = (ground arith, ground arith, ground arith)

module _ (u : Unicode) (v : IsUnicode u) (parse_address : Str → Bool) where
  lower_idem : (s : Str) → lower u (lower u s) ≡ lower u s
  lower_idem [] = refl
  lower_idem (c ∷ s) = ap₂ ◌∷◌ (v.to_lower_idem c) (lower_idem s)

  normal_email : (raw : Str) → lower u (trim u (lower u (trim u raw))) ≡ lower u (trim u raw)
  normal_email raw =
      rw
        (trim-id u (lower u (trim u raw))
          (map-FrontVisible u u.to_lower v.to_lower_visible (trim u raw) (trim-FrontVisible u raw))
          (map-BackVisible u u.to_lower v.to_lower_visible (trim u raw) (trim-BackVisible u raw)))
        (lower_idem (trim u raw))

  new_email-value :
      (raw : Str) (e : Email)
      → new_email u parse_address raw ≡ ok e
      → e.value ≡ lower u (trim u raw)
  unfolding new_email
  new_email-value raw e h = ground arith

  -- An address that NewEmail accepts is accepted again as it is stored, with the same value.
  pub new_email-new_email :
      (raw : Str) (e : Email)
      → new_email u parse_address raw ≡ ok e
      → new_email u parse_address e.value ≡ ok e
  unfolding new_email
  new_email-new_email raw e h = ground (
    arith,
    new_email-value raw e h,
    normal_email raw,
    ap (λ s. lower u (trim u s)) (new_email-value raw e h),
  )
