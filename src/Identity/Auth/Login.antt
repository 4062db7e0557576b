-- ===== src/Identity/Auth/Login.antt =====
-- `Login`
use bookstore_golang.Base.{
  ℕ, ◌+◌, Option, none, some, List, Result, ok, err, Action, pure, fail, guard, catch, ignore,
  ◌>>=◌, ◌>>◌,
}
use bookstore_golang.Base.Text.{Str, trim}
use bookstore_golang.Errors.{Error, invalid_credentials}
use bookstore_golang.Platform.Redis.{Redis}
use bookstore_golang.Database.{Context, World, now_of}
use bookstore_golang.Identity.Status.{can_login}
use bookstore_golang.Identity.Entity.{User, Device, Session, SessionStatus, new_email}
use bookstore_golang.Identity.Policy.{DevicePolicy, can_register_new_device}
use bookstore_golang.Identity.Library.{Library}
use bookstore_golang.Identity.Tokens.{
  generate_access_token, generate_refresh_token, verify_password,
}
use bookstore_golang.Identity.Cache.{store_session, delete_session}
use bookstore_golang.Identity.Repo.User.{get_by_email}
use bookstore_golang.Identity.Repo.Credential.{get_by_user_id}
use bookstore_golang.Identity.Repo.Device
use bookstore_golang.Identity.Repo.Session
use bookstore_golang.Identity.Auth.{AuthService, LoginCommand, TokenOutput, lift, session_ttl}

-- `if existDevice == nil { … CanRegisterNewDevice … }`
abbrev pub check_device :
    {S : Type 0} → DevicePolicy → List Device → Option Device → Action S Error (Unit {0})
check_device p active_device none = lift (can_register_new_device p active_device)
check_device p active_device (some _) = pure tt

abbrev seen_before : Option Device → Device → Device
seen_before none device = device
seen_before (some exist) device = record device {
  id = exist.id;
  first_seen_at = exist.first_seen_at;
}

-- The device to be saved.
abbrev pub login_device : ℕ → Str → Str → ℕ → Option Device → Device
login_device user_id fingerprint label now exist = seen_before exist (record {
  id = 0;
  user_id = user_id;
  fingerprint = fingerprint;
  label = label;
  first_seen_at = now;
  last_seen_at = now;
  revoked_at = none;
  revoked_reason = none;
  created_at = 0;
  updated_at = 0;
})

-- The session to be saved.
abbrev pub login_session : ℕ → ℕ → Str → ℕ → ℕ → LoginCommand → Session
login_session user_id device_id hash now ttl cmd = record {
  id = 0;
  user_id = user_id;
  refresh_token_hash = hash;
  device_id = device_id;
  session_status = SessionStatus.active;
  expired_at = now + ttl;
  ip_address = some cmd.ip_address;
  user_agent = cmd.user_agent;
  last_seen_at = now;
  revoked_at = none;
  revoked_reason = none;
  created_at = 0;
  updated_at = 0;
}

module _ {V : Type 0} {R : Redis V} where
  -- What is done with the device's old session; an error, also of the query, ends nothing.
  abbrev drop_found : Result Error Session × World R → Result Error (Unit {0}) × World R
  drop_found (ok old, w) = ignore (delete_session old.refresh_token_hash) w
  drop_found (err e, w) = (ok tt, w)

  unfoldable pub drop_old_session : Context → ℕ → ℕ → Action (World R) Error (Unit {0})
  unfolding delete_session
  drop_old_session ctx user_id device_id w =
      drop_found (Session.get_by_device_id ctx user_id device_id w)

module _ {V : Type 0} {R : Redis V} (l : Library V) (s : AuthService) (ctx : Context) where
  -- From step 8 on: the session of the device.
  unfoldable pub open_session : User → ℕ → ℕ → LoginCommand → Action (World R) Error TokenOutput
  unfolding drop_old_session generate_refresh_token generate_access_token store_session
  open_session user device_id now cmd = do
    drop_old_session ctx user.id device_id
    raw_refresh_token ←
        generate_refresh_token l s.jwt user.id user.email.value user.user_type
          (l.format_int device_id)
    let ttl = session_ttl s.device_policy
    session ←
        Session.upsert ctx
          (login_session user.id device_id (l.hash_token raw_refresh_token) now ttl cmd)
    (access_token, expired_at) ←
        generate_access_token l s.jwt user.id user.email.value user.user_type
          (l.format_int session.id) (l.format_int device_id)
    ignore (store_session l session.refresh_token_hash session ttl)
    pure (record {
      access_token = access_token;
      refresh_token = raw_refresh_token;
      access_token_expires_at = expired_at;
      refresh_token_expires_at = session.expired_at;
    })

  -- From step 6 on: the device.
  unfoldable pub enter_device : User → LoginCommand → Action (World R) Error TokenOutput
  unfolding open_session
  enter_device user cmd = do
    now ← now_of
    active_device ← Device.list_active_by_user_id ctx user.id
    let fingerprint = trim l.unicode cmd.device_fingerprint
    exist_device ← Device.get_by_fingerprint ctx user.id fingerprint
    check_device s.device_policy active_device exist_device
    device ← Device.upsert ctx (login_device user.id fingerprint cmd.device_label now exist_device)
    open_session user device.id now cmd

  unfoldable pub login : LoginCommand → Action (World R) Error TokenOutput
  unfolding enter_device verify_password
  login cmd = do
    email ← lift (new_email l.unicode l.parse_address cmd.email)
    user ← get_by_email ctx l.unicode l.parse_address email
    guard (can_login user.status) invalid_credentials
    credential ← get_by_user_id ctx user.id
    catch (verify_password l cmd.password credential.password_hash) (λ _. fail invalid_credentials)
    enter_device user cmd
