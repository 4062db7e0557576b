-- ===== src/Identity/Status/Transitions.antt =====
-- The life of an account as a step relation, and `CanTransitionTo` as its decision.
use bookstore_golang.Base.{◌≡◌, ◌≢◌, ◌↔◌, ◌⊎◌, inl, inr, refl, ok, err, arith}
use bookstore_golang.Errors.{invalid_status_transition}
use bookstore_golang.Identity.Status.{
  UserStatus, active, banned, suspended, pending_verification, can_transition_to,
}

pub data Transition : UserStatus → UserStatus → Type 0 where
  verify : Transition pending_verification active
  suspend : Transition active suspended
  ban : Transition active banned
  reinstate : Transition suspended active
  ban_suspended : Transition suspended banned

pub data Reach (s : UserStatus) : UserStatus → Type 0 where
  here : Reach s s
  next : {t t' : UserStatus} → Reach s t → Transition t t' → Reach s t'

transition_of_ok : (s t : UserStatus) → can_transition_to s t ≡ ok tt → Transition s t
unfolding can_transition_to
transition_of_ok pending_verification active h = verify
transition_of_ok active suspended h = suspend
transition_of_ok active banned h = ban
transition_of_ok suspended active h = reinstate
transition_of_ok suspended banned h = ban_suspended
transition_of_ok s t h = absurd (ground arith)

ok_of_transition : {s t : UserStatus} → Transition s t → can_transition_to s t ≡ ok tt
unfolding can_transition_to
ok_of_transition verify = ground arith
ok_of_transition suspend = ground arith
ok_of_transition ban = ground arith
ok_of_transition reinstate = ground arith
ok_of_transition ban_suspended = ground arith

-- CanTransitionTo accepts a change of status exactly when it is one of the five steps of the life
-- of an account.
can_transition_to-ok_iff : (s t : UserStatus) → (can_transition_to s t ≡ ok tt) ↔ Transition s t
can_transition_to-ok_iff s t = (transition_of_ok s t, ok_of_transition)

-- A banned account stays banned.
pub Reach-banned : {s t : UserStatus} → s ≡ banned → Reach s t → t ≡ banned
Reach-banned e here = e
Reach-banned e (next r step) = no_exit step (Reach-banned e r)
  where
    no_exit : {t t' : UserStatus} → Transition t t' → t ≡ banned → t' ≡ banned
    no_exit verify h = absurd (cc)
    no_exit suspend h = absurd (cc)
    no_exit ban h = refl
    no_exit reinstate h = absurd (cc)
    no_exit ban_suspended h = refl

-- Nothing leads back to the wait for a verified address.
pub Transition-ne_pending : {s t : UserStatus} → Transition s t → t ≢ pending_verification
Transition-ne_pending verify e = cc
Transition-ne_pending suspend e = cc
Transition-ne_pending ban e = cc
Transition-ne_pending reinstate e = cc
Transition-ne_pending ban_suspended e = cc

-- It refuses every other change with one error.
pub can_transition_to-cases :
    (s t : UserStatus)
    → ((can_transition_to s t ≡ ok tt) × Transition s t)
      ⊎ (can_transition_to s t ≡ err invalid_status_transition)
unfolding can_transition_to
can_transition_to-cases pending_verification active = inl (ground arith, verify)
can_transition_to-cases active suspended = inl (ground arith, suspend)
can_transition_to-cases active banned = inl (ground arith, ban)
can_transition_to-cases suspended active = inl (ground arith, reinstate)
can_transition_to-cases suspended banned = inl (ground arith, ban_suspended)
can_transition_to-cases s t = inr (ground arith)
