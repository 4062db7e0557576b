-- ===== src/Identity/Http/Handlers.antt =====
-- internal/modules/identity/http: auth_handler.go, address_handler.go, profile_handler.go,
-- request.go and router.go. The services are the interfaces that the handlers name, as records of
-- calls; a body is what gin reads of it, if it is valid; the detail texts of errors are left out.
use bookstore_golang.Base.{
  ℕ, Bool, ◌==◌, nat_eq, if◌then◌else◌, Option, none, some, List, [], ◌∷◌, Result, ok, err, Action,
}
use bookstore_golang.Base.Text.{Str, codes, str_eq}
use bookstore_golang.Errors.{
  Error, email_already_exist, invalid_credentials, email_not_verified, session_expired,
  session_revoked, device_limit_reached, address_not_found, user_not_found, device_not_found,
}
use bookstore_golang.Identity.Auth.{
  RegisterCommand, LoginCommand, ChangePasswordCommand, LogoutCommand, TokenOutput,
}
use bookstore_golang.Identity.Auth.Register.{RegisterOutput}
use bookstore_golang.Identity.Http.Middleware.{AuthContext}

-- The cookie of a refresh token, which lasts until the time.
pub record Cookie : Type 0 where
  pub refresh_token : Str
  pub expires_at : ℕ

-- A status with a message; a success may have data, and may set the cookie.
pub data Answer (A : Type 0) : Type 0 where
  failure : ℕ → Str → Answer A
  success : ℕ → Str → A → Option Cookie → Answer A

-- `writeAuthError`
abbrev pub write_auth_error : {A : Type 0} → Error → Answer A
write_auth_error email_already_exist = failure 409 (codes "IDENTITY_EMAIL_ALREADY_EXIST")
write_auth_error invalid_credentials = failure 401 (codes "IDENTITY_INVALID_CREDENTIALS")
write_auth_error email_not_verified = failure 403 (codes "IDENTITY_EMAIL_NOT_VERIFIED")
write_auth_error session_expired = failure 401 (codes "IDENTITY_SESSION_EXPIRED")
write_auth_error session_revoked = failure 401 (codes "IDENTITY_SESSION_REVOKED")
write_auth_error device_limit_reached = failure 422 (codes "IDENTITY_DEVICE_LIMIT_REACHED")
write_auth_error _ = failure 500 (codes "INTERNAL_ERROR")

abbrev pub write_address_error : {A : Type 0} → Str → Error → Answer A
write_address_error operation address_not_found = failure 404 (codes "ADDRESS_NOT_FOUND")
write_address_error operation _ = failure 500 operation

abbrev pub write_profile_error : {A : Type 0} → Str → Error → Answer A
write_profile_error operation user_not_found = failure 404 (codes "USER_NOT_FOUND")
write_profile_error operation device_not_found = failure 404 (codes "DEVICE_NOT_FOUND")
write_profile_error operation _ = failure 500 operation

pub record RegisterRequest : Type 0 where
  pub email : Str
  pub password : Str
  pub full_name : Str
  pub phone : Option Str

pub record LoginRequest : Type 0 where
  pub email : Str
  pub password : Str
  pub device_fingerprint : Str
  pub device_label : Str

pub record ChangePasswordRequest : Type 0 where
  pub current_password : Str
  pub new_password : Str

pub record AddressRequest : Type 0 where
  pub recipient_name : Str
  pub recipient_phone : Str
  pub line1 : Str
  pub line2 : Str
  pub province_code : Str
  pub district_code : Str
  pub ward_code : Str
  pub postal_code : Str
  pub country_code : Str
  pub is_default : Bool

-- `c.Param`
unfoldable pub param : Str → List (Str × Str) → Str
param name [] = []
param name ((k, v) ∷ params) = if k == name then v else param name params

abbrev pub positive : Option ℕ → Option ℕ
positive none = none
positive (some n) = if n == 0 then none else some n

module _ {W : Type 0} {A B : Type 0} where
  -- `httpx.Success` on the result of a call, or the error of it.
  abbrev pub respond : (Error → Answer B) → (A → Answer B) → Result Error A × W → Answer B × W
  respond f g (ok a, w) = (g a, w)
  respond f g (err e, w) = (f e, w)

  -- `if !bindJSON(c, &req) { return }`
  abbrev pub bind_json : Option A → (A → W → Answer B × W) → W → Answer B × W
  bind_json none k w = (failure 422 (codes "VALIDATION_ERROR"), w)
  bind_json (some req) k w = k req w

module _ {W : Type 0} {B : Type 0} where
  -- `GetAuthContext`, with the message where there is none.
  abbrev pub with_context :
      Str → Option AuthContext → (AuthContext → W → Answer B × W) → W → Answer B × W
  with_context message none k w = (failure 401 message, w)
  with_context message (some ac) k w = k ac w

  abbrev pub with_id : Str → Option ℕ → (ℕ → W → Answer B × W) → W → Answer B × W
  with_id message none k w = (failure 400 message, w)
  with_id message (some n) k w = k n w

-- `AuthUseCase`
pub record AuthUseCase (W : Type 0) : Type 0 where
  pub register : RegisterCommand → Action W Error RegisterOutput
  pub login : LoginCommand → Action W Error TokenOutput
  pub refresh_token : Str → Action W Error TokenOutput
  pub logout : LogoutCommand → Action W Error (Unit {0})
  pub verify_email : Str → Action W Error (Unit {0})
  pub change_password : ChangePasswordCommand → Action W Error (Unit {0})

abbrev pub not_authenticated : Str
not_authenticated = codes "NOT_AUTHENTICATED"

-- The answer with the tokens: the access token and its end as data, the refresh token as a cookie.
abbrev pub with_tokens : Str → TokenOutput → Answer (Str × ℕ)
with_tokens message out =
    success 200 message (out.access_token, out.access_token_expires_at)
      (some
        (record { refresh_token = out.refresh_token; expires_at = out.refresh_token_expires_at }))

abbrev pub plain_success : Str → Unit {0} → Answer (Unit {0})
plain_success message _ = success 200 message tt none

module _ {W : Type 0} (auth : AuthUseCase W) where
  unfoldable pub handle_register : Option RegisterRequest → W → Answer RegisterOutput × W
  handle_register body = bind_json body (λ req w.
      respond write_auth_error (λ out. success 201 (codes "REGISTER_SUCCESS") out none)
        (auth.register
          (record {
            email = req.email;
            password = req.password;
            full_name = req.full_name;
            phone = req.phone;
          })
          w))

  unfoldable pub handle_change_password :
      Option AuthContext → Option ChangePasswordRequest → W → Answer (Unit {0}) × W
  handle_change_password context body = with_context not_authenticated context (λ ac.
      bind_json body (λ req w.
        respond write_auth_error (plain_success (codes "CHANGE_PASSWORD_SUCCESS")) (
          auth.change_password
            (record {
              user_id = ac.user_id;
              current_session_id = ac.session_id;
              current_password = req.current_password;
              new_password = req.new_password;
            })
            w)))

  unfoldable pub handle_login : Str → Str → Option LoginRequest → W → Answer (Str × ℕ) × W
  handle_login client_ip user_agent body = bind_json body (λ req w.
      respond write_auth_error (with_tokens (codes "LOGIN_SUCCESS")) (
        auth.login
          (record {
            email = req.email;
            password = req.password;
            device_fingerprint = req.device_fingerprint;
            device_label = req.device_label;
            ip_address = client_ip;
            user_agent = user_agent;
          })
          w))

  -- With the cookie of the request, if it has one.
  unfoldable pub handle_refresh_token : Option Str → W → Answer (Str × ℕ) × W
  handle_refresh_token none w = (failure 401 not_authenticated, w)
  handle_refresh_token (some refresh_token) w =
      respond write_auth_error (with_tokens (codes "REFRESH_TOKEN_SUCCESS"))
        (auth.refresh_token refresh_token w)

  unfoldable pub handle_logout : Option AuthContext → W → Answer (Unit {0}) × W
  handle_logout context = with_context not_authenticated context (λ ac w.
      respond write_auth_error (plain_success (codes "LOGOUT_SUCCESS"))
        (auth.logout (record { device_id = ac.device_id; user_id = ac.user_id }) w))

  unfoldable pub handle_verify_email : Option Str → W → Answer (Unit {0}) × W
  handle_verify_email body = bind_json body (λ token w.
      respond write_auth_error (plain_success (codes "VERIFY_EMAIL_SUCCESS"))
        (auth.verify_email token w))
