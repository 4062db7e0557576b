-- ===== src/Identity/Policy.antt =====
-- internal/modules/identity/domain/policy
pub mod Password
use bookstore_golang.Base.{
  ℕ, Bool, true, false, not, ◌||◌, List, [], ◌∷◌, ltb, leb, if◌then◌else◌, Result, ok, err, length,
}
use bookstore_golang.Base.Text.{Str, Unicode, byte_len}
use bookstore_golang.Errors.{Error, password_too_weak, email_required, device_limit_reached}
use bookstore_golang.Identity.Entity.{Device, Email, is_zero}

pub record RegisterPolicy : Type 0 where
  pub min_pass_length : ℕ
  pub max_pass_length : ℕ

abbrev pub new_register_policy : RegisterPolicy
new_register_policy = record { min_pass_length = 8; max_pass_length = 72 }

-- The flags of the loop of `ValidatePassword`.
pub record Flags : Type 0 where
  pub has_upper : Bool
  pub has_lower : Bool
  pub has_digit : Bool

-- one round of the loop
abbrev pub scan_sign : Unicode → ℕ → Flags → Flags
scan_sign u r f =
    if u.is_upper r
    then record f { has_upper = true }
    else if u.is_lower r
    then record f { has_lower = true }
    else if u.is_digit r
    then record f { has_digit = true }
    else f

unfoldable pub scan : Unicode → Str → Flags → Flags
scan u [] f = f
scan u (r ∷ rest) f = scan u rest (scan_sign u r f)

abbrev no_flags : Flags
no_flags = record { has_upper = false; has_lower = false; has_digit = false }

unfoldable pub validate_password : Unicode → RegisterPolicy → Str → Result Error (Unit {0})
unfolding scan
validate_password u p password =
    if ltb (byte_len password) p.min_pass_length || ltb p.max_pass_length (byte_len password)
    then err password_too_weak
    else let f = scan u password no_flags in
      if not f.has_upper || (not f.has_lower || not f.has_digit)
      then err password_too_weak
      else ok tt

unfoldable pub validate_registration :
    Unicode → RegisterPolicy → Email → Str → Result Error (Unit {0})
validate_registration u p email password =
    if is_zero email then err email_required else validate_password u p password

pub record DevicePolicy : Type 0 where
  pub max_devices_per_user : ℕ
  pub max_session_ttl : ℕ

abbrev pub new_device_policy : DevicePolicy
new_device_policy = record { max_devices_per_user = 5; max_session_ttl = 30 }

unfoldable pub can_register_new_device : DevicePolicy → List Device → Result Error (Unit {0})
can_register_new_device p active_devices =
    if leb p.max_devices_per_user (length active_devices) then err device_limit_reached else ok tt
