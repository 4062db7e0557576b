-- ===== src/Identity/Entity.antt =====
-- internal/modules/identity/domain/entity and domain/value_object/emai.go: the entities and their
-- methods. A time is a number, a missing time or text is `none`, and a method that writes through its
-- pointer returns the new entity. The JSON columns `metadata` are not read and are left out.
pub mod Lifecycle
use bookstore_golang.Base.{
  ℕ, ◌+◌, ◌*◌, ◌-◌, Bool, true, false, not, ◌&&◌, ◌||◌, Option, none, some, [], ◌==◌, nat_eq, ltb,
  leb, if◌then◌else◌, Result, ok, err,
}
use bookstore_golang.Base.Text.{Str, codes, str_eq, Unicode, trim, lower, byte_len}
use bookstore_golang.Errors.{
  Error, invalid_email_format, email_too_long, email_not_verified, address_not_owned,
  device_not_owned, session_revoked, session_expired,
}
use bookstore_golang.Identity.Status.{UserStatus, can_transition_to}

abbrev pub is_some : {A : Type 0} → Option A → Bool
is_some none = false
is_some (some _) = true

pub record Email : Type 0 where
  pub value : Str

-- `parse_address` is whether `mail.ParseAddress` accepts the text.
unfoldable pub new_email : Unicode → (Str → Bool) → Str → Result Error Email
new_email u parse_address raw =
    let normalized = lower u (trim u raw) in
    if not (parse_address normalized)
    then err invalid_email_format
    else if ltb 255 (byte_len normalized)
    then err email_too_long
    else ok (record { value = normalized })

abbrev pub is_zero : Email → Bool
is_zero e = e.value == []

pub record User : Type 0 where
  pub id : ℕ
  pub email : Email
  pub full_name : Str
  pub phone : Option Str
  pub user_type : Str
  pub status : UserStatus
  pub email_verified_at : Option ℕ
  pub last_login_at : Option ℕ
  pub locked_reason : Option Str
  pub version : ℕ
  pub created_at : ℕ
  pub updated_at : ℕ

abbrev pub is_email_verified : User → Bool
is_email_verified u = is_some u.email_verified_at

unfoldable pub can_perform_digital_actions : User → Result Error (Unit {0})
can_perform_digital_actions u = if not (is_email_verified u) then err email_not_verified else ok tt

-- It returns no error on any path.
unfoldable pub mark_email_verified : User → ℕ → User
mark_email_verified u now =
    if is_email_verified u
    then u
    else record u { email_verified_at = some now; status = UserStatus.active; updated_at = now }

abbrev move_to : User → UserStatus → ℕ → Result Error (Unit {0}) → Result Error (Unit {0}) × User
move_to u next now (err e) = (err e, u)
move_to u next now (ok _) = (ok tt, record u { status = next; updated_at = now })

unfoldable pub suspend : User → ℕ → Result Error (Unit {0}) × User
suspend u now = move_to u UserStatus.suspended now (can_transition_to u.status UserStatus.suspended)

unfoldable pub ban : User → ℕ → Result Error (Unit {0}) × User
ban u now = move_to u UserStatus.banned now (can_transition_to u.status UserStatus.banned)

pub record Credential : Type 0 where
  pub user_id : ℕ
  pub password_hash : Str
  pub password_algo : Str
  pub password_changed_at : ℕ
  pub failed_login_count : ℕ
  pub last_failed_login_at : Option ℕ

-- nanoseconds
abbrev pub hour_ns : ℕ
hour_ns = 3600 * 1000000000

-- `age.Hours() > float64(maxAgeDays)*24`, compared in nanoseconds; an age below 0 is below the limit.
unfoldable pub is_password_change_required : Credential → ℕ → ℕ → Bool
is_password_change_required c now max_age_days =
    if leb max_age_days 0
    then false
    else ltb (max_age_days * 24 * hour_ns) (now - c.password_changed_at)

unfoldable pub mark_password_changed : Credential → Str → Str → ℕ → Credential
mark_password_changed c new_hash algo now = record c {
  password_hash = new_hash;
  password_algo = algo;
  password_changed_at = now;
}

pub record Device : Type 0 where
  pub id : ℕ
  pub user_id : ℕ
  pub fingerprint : Str
  pub label : Str
  pub first_seen_at : ℕ
  pub last_seen_at : ℕ
  pub revoked_at : Option ℕ
  pub revoked_reason : Option Str
  pub created_at : ℕ
  pub updated_at : ℕ

unfoldable pub revoke_device : Device → ℕ → Device
revoke_device d now = if is_some d.revoked_at then d else record d { revoked_at = some now }

unfoldable pub device_assert_ownership : Device → ℕ → Result Error (Unit {0})
device_assert_ownership d user_id = if d.user_id == user_id then ok tt else err device_not_owned

abbrev pub update_last_seen : Device → ℕ → Device
update_last_seen d now = record d { last_seen_at = now }

-- The column `session_status`, whose CHECK admits three values.
pub data SessionStatus : Type 0 where
  active revoked expired : SessionStatus

unfoldable pub SessionStatus-discrete : Discrete SessionStatus
SessionStatus-discrete = hlevel

pub record Session : Type 0 where
  pub id : ℕ
  pub user_id : ℕ
  pub refresh_token_hash : Str
  pub device_id : ℕ
  pub session_status : SessionStatus
  pub expired_at : ℕ
  pub ip_address : Option Str
  pub user_agent : Str
  pub last_seen_at : ℕ
  pub revoked_at : Option ℕ
  pub revoked_reason : Option Str
  pub created_at : ℕ
  pub updated_at : ℕ

abbrev pub is_revoked : Session → Bool
is_revoked s = is_some s.revoked_at

abbrev pub is_expired : Session → ℕ → Bool
is_expired s now = ltb s.expired_at now

unfoldable pub revoke_session : Session → ℕ → Session
revoke_session s now = if is_revoked s then s else record s { revoked_at = some now }

unfoldable pub is_useable : Session → ℕ → Result Error (Unit {0})
is_useable s now =
    if is_revoked s
    then err session_revoked
    else if is_expired s now
    then err session_expired
    else ok tt

unfoldable pub rotate : Session → Str → ℕ → Session
rotate s new_refresh_token_hash now = record s {
  refresh_token_hash = new_refresh_token_hash;
  last_seen_at = now;
}

pub record Address : Type 0 where
  pub id : ℕ
  pub user_id : ℕ
  pub recipient_name : Str
  pub recipient_phone : Str
  pub line1 : Str
  pub line2 : Str
  pub province : Str
  pub district : Str
  pub ward : Str
  pub postal_code : Str
  pub country_code : Str
  pub is_default : Bool
  pub version : ℕ
  pub created_at : ℕ
  pub updated_at : ℕ

unfoldable pub address_assert_ownership : Address → ℕ → Result Error (Unit {0})
address_assert_ownership a user_id = if a.user_id == user_id then ok tt else err address_not_owned
