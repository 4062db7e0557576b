-- ===== src/Identity/Library.antt =====
-- What the identity module calls outside the repository's own code, as functions of their inputs:
-- Go's tables of signs, `mail.ParseAddress`, SHA-256, random tokens, bcrypt, JSON and JWT. A random
-- draw is the function of its number.
use bookstore_golang.Base.{ℕ, Bool, Option}
use bookstore_golang.Base.Text.{Str, Unicode}
use bookstore_golang.Platform.Redis.{Codec}
use bookstore_golang.Identity.Entity.{Session}

-- `Claims` of internal/platform/auth/jwt_auth.go, with the fields of `RegisteredClaims` that are set.
pub record Claims : Type 0 where
  pub user_id : ℕ
  pub email : Str
  pub role : Str
  pub type : Str
  pub session_id : Str
  pub device_id : Str
  pub jti : Str
  pub expires_at : ℕ
  pub issued_at : ℕ

pub record Library (V : Type 0) : Type 0 where
  pub unicode : Unicode
  pub parse_address : Str → Bool
  -- `cryptoutil.HashToken`
  pub hash_token : Str → Str
  -- `cryptoutil.GenerateSecureToken`; `none` if the generator fails
  pub secure_token : ℕ → Option Str
  pub uuid : ℕ → Str
  -- bcrypt
  pub generate_from_password : ℕ → Str → Option Str
  pub compare_hash_and_password : Str → Str → Bool
  -- the signature of a token with the secret, and back
  pub signed_string : Claims → Option Str
  pub parse_with_claims : ℕ → Str → Option Claims
  pub format_int : ℕ → Str
  pub json_session : Codec V Session
  pub decimal : Codec V ℕ
