-- ===== src/Identity/Status.antt =====
-- internal/modules/identity/domain/value_object/user_status.go. The column's CHECK admits these four
-- values alone.
pub mod Transitions
use bookstore_golang.Base.{
  Bool, true, false, List, [], ◌∷◌, ◌==◌, Eq, if◌then◌else◌, Result, ok, err,
}
use bookstore_golang.Errors.{Error, invalid_status_transition}

-- "active", "locked", "disabled", "pending_verification"
pub data UserStatus : Type 0 where
  active banned suspended pending_verification : UserStatus

unfoldable pub UserStatus-discrete : Discrete UserStatus
UserStatus-discrete = hlevel

instance abbrev pub status_eq : Eq UserStatus
status_eq = record { dec = UserStatus-discrete }

unfoldable pub is_active : UserStatus → Bool
is_active s = s == active

unfoldable pub can_login : UserStatus → Bool
can_login s = s == active

abbrev allowed : UserStatus → List UserStatus
allowed pending_verification = active ∷ []
allowed active = suspended ∷ banned ∷ []
allowed suspended = active ∷ banned ∷ []
allowed banned = []

-- the loop of `CanTransitionTo`
abbrev find_status : List UserStatus → UserStatus → Result Error (Unit {0})
find_status [] next = err invalid_status_transition
find_status (a ∷ rest) next = if a == next then ok tt else find_status rest next

unfoldable pub can_transition_to : UserStatus → UserStatus → Result Error (Unit {0})
can_transition_to s next = find_status (allowed s) next
