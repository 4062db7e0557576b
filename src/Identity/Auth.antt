-- ===== src/Identity/Auth.antt =====
-- internal/modules/identity/app/service/auth_service.go: the commands of app/command and the parts
-- that the operations share; each operation has a module of its own. The service's clock and the
-- random draws are those of the world, and a line that only logs is left out.
pub mod Register
pub mod Login
pub mod Refresh
pub mod Password
pub mod Verify
pub mod Atomicity
pub mod Limit
pub mod Refreshed
pub mod Rotation
pub mod Created
pub mod Proven
pub mod Rehashed
pub mod Spent
pub mod Opened
use bookstore_golang.Base.{ℕ, ◌*◌, Option, none, some, [], ◌∷◌, Result, ok, err, Action}
use bookstore_golang.Base.Text.{Str, codes, Unicode, trim}
use bookstore_golang.Errors.{Error}
use bookstore_golang.Identity.Entity.{hour_ns}
use bookstore_golang.Identity.Policy.{RegisterPolicy, DevicePolicy}
use bookstore_golang.Identity.Tokens.{JwtConfig}

-- The parts of `AuthService` that are settings; the repositories and adapters are functions.
pub record AuthService : Type 0 where
  pub jwt : JwtConfig
  pub register_policy : RegisterPolicy
  pub device_policy : DevicePolicy

pub record RegisterCommand : Type 0 where
  pub email : Str
  pub password : Str
  pub full_name : Str
  pub phone : Option Str

pub record LoginCommand : Type 0 where
  pub email : Str
  pub password : Str
  pub device_fingerprint : Str
  pub device_label : Str
  pub ip_address : Str
  pub user_agent : Str

pub record ChangePasswordCommand : Type 0 where
  pub user_id : ℕ
  pub current_password : Str
  pub new_password : Str
  pub current_session_id : ℕ

pub record LogoutCommand : Type 0 where
  pub device_id : ℕ
  pub user_id : ℕ

pub record ResetPasswordCommand : Type 0 where
  pub token : Str
  pub new_password : Str

-- `LoginOutput` and `RefreshTokenOutput` of app/dto, which have the same fields.
pub record TokenOutput : Type 0 where
  pub access_token : Str
  pub refresh_token : Str
  pub access_token_expires_at : ℕ
  pub refresh_token_expires_at : ℕ

-- A check that makes no call.
abbrev pub lift : {S E A : Type 0} → Result E A → Action S E A
lift r s = (r, s)

abbrev nonempty : Str → Option Str
nonempty [] = none
nonempty (c ∷ s) = some (c ∷ s)

-- It also trims the text in place, which the command's owner does not read again.
unfoldable pub normalize_optional_string : Unicode → Option Str → Option Str
normalize_optional_string u none = none
normalize_optional_string u (some v) = nonempty (trim u v)

-- `time.Duration(MaxSessionTTL) * 24 * time.Hour`
abbrev pub session_ttl : DevicePolicy → ℕ
session_ttl p = p.max_session_ttl * 24 * hour_ns

-- The tokens that a call returned.
abbrev pub token_of : Result Error TokenOutput → Str
token_of (ok out) = out.refresh_token
token_of (err e) = []

abbrev pub expiry_of : Result Error TokenOutput → ℕ
expiry_of (ok out) = out.refresh_token_expires_at
expiry_of (err e) = 0
