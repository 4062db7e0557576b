-- ===== src/Identity/Auth/Limit.antt =====
-- The device limit and `Login`.
use bookstore_golang.Base.{
  ℕ, ◌≡◌, refl, Option, none, some, Result, ok, err, Action, bind_result, catch, fail, guard, arith,
}
use bookstore_golang.Base.Text.{Str, trim}
use bookstore_golang.Errors.{Error, invalid_credentials}
use bookstore_golang.Platform.Redis.{Redis}
use bookstore_golang.Database.{Context, World, execute, attempt}
use bookstore_golang.Identity.Entity.{User, new_email}
use bookstore_golang.Identity.Status.{can_login}
use bookstore_golang.Identity.Library.{Library}
use bookstore_golang.Identity.Tokens.{verify_password}
use bookstore_golang.Identity.Repo.Device
use bookstore_golang.Identity.Repo.Device.{query_get_device_by_fingerprint}
use bookstore_golang.Identity.Repo.User.{get_by_email}
use bookstore_golang.Identity.Repo.Credential.{get_by_user_id}
use bookstore_golang.Identity.Auth.{AuthService, LoginCommand, lift}
use bookstore_golang.Identity.Auth.Login.{login, enter_device, open_session, login_device}

-- A lookup that ends well has found something.
abbrev AnswersSome : {A : Type 0} → Result Error (Option A) → Type 0
AnswersSome (ok none) = ⊥
AnswersSome (ok (some x)) = Unit {0}
AnswersSome (err e) = Unit {0}

module _ {V : Type 0} {R : Redis V} (ctx : Context) (user_id : ℕ) (fingerprint : Str) where
  by_fingerprint-AnswersSome :
      (w : World R) → AnswersSome (Device.get_by_fingerprint ctx user_id fingerprint w).0
  unfolding query_get_device_by_fingerprint execute attempt
  by_fingerprint-AnswersSome w = ground arith

  bind_some :
      {A B : Type 0} (r : Result Error (Option A) × World R)
      (f g : Option A → Action (World R) Error B)
      → AnswersSome r.0
      → ((a : A) (w : World R) → f (some a) w ≡ g (some a) w)
      → bind_result r f ≡ bind_result r g
  bind_some (ok none, w) f g found same = absurd found
  bind_some (ok (some a), w) f g found same = same a w
  bind_some (err e, w) f g found same = refl

bind_same :
    {S E A B : Type 0} (r : Result E A × S) (f g : A → Action S E B)
    → ((a : A) (s : S) → f a s ≡ g a s)
    → bind_result r f ≡ bind_result r g
bind_same (ok a, s) f g same = same a s
bind_same (err e, s) f g same = refl

abbrev pub with_limit : ℕ → AuthService → AuthService
with_limit n s = record s { device_policy = record (s.device_policy) { max_devices_per_user = n } }

module _ {V : Type 0} {R : Redis V} (l : Library V) (s : AuthService) (ctx : Context) where
  open_session_any_limit :
      (n : ℕ) (user : User) (device_id now : ℕ) (cmd : LoginCommand) (w : World R)
      → open_session l (with_limit n s) ctx user device_id now cmd w
        ≡ open_session l s ctx user device_id now cmd w
  unfolding open_session
  open_session_any_limit n user device_id now cmd w = refl

  enter_device_any_limit :
      (n : ℕ) (user : User) (cmd : LoginCommand) (w : World R)
      → enter_device l (with_limit n s) ctx user cmd w ≡ enter_device l s ctx user cmd w
  unfolding enter_device
  enter_device_any_limit n user cmd w =
      bind_same (Device.list_active_by_user_id ctx user.id w) _ _ λ active w1.
        bind_some ctx user.id (trim l.unicode cmd.device_fingerprint)
          (Device.get_by_fingerprint ctx user.id (trim l.unicode cmd.device_fingerprint) w1) _ _
          (by_fingerprint-AnswersSome ctx user.id (trim l.unicode cmd.device_fingerprint) w1)
          λ exist w2.
            bind_same
              (Device.upsert ctx
                (login_device user.id (trim l.unicode cmd.device_fingerprint) cmd.device_label w.now
                  (some exist))
                w2)
              _ _ λ device w3. open_session_any_limit n user device.id w.now cmd w3

  -- Login has the same result and the same effects whatever the limit on the devices of a user is:
  -- the limit is never applied.
  pub login_any_limit :
      (n : ℕ) (cmd : LoginCommand) (w : World R)
      → login l (with_limit n s) ctx cmd w ≡ login l s ctx cmd w
  unfolding login
  login_any_limit n cmd w =
      bind_same (lift (new_email l.unicode l.parse_address cmd.email) w) _ _ λ email w1.
        bind_same (get_by_email ctx l.unicode l.parse_address email w1) _ _ λ user w2.
          bind_same (guard (can_login user.status) invalid_credentials w2) _ _ λ _ w3.
            bind_same (get_by_user_id ctx user.id w3) _ _ λ credential w4.
              bind_same
                (catch (verify_password l cmd.password credential.password_hash)
                  (λ _. fail invalid_credentials) w4)
                _ _ λ _ w5. enter_device_any_limit n user cmd w5
