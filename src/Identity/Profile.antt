-- ===== src/Identity/Profile.antt =====
-- internal/modules/identity/app/service/profile_service.go. GetMe, ListSessions, ListDevices and
-- ListAddresses are the methods of the query repository.
pub mod Revoked
use bookstore_golang.Base.{ℕ, Result, Action, ◌>>=◌, ◌>>◌}
use bookstore_golang.Errors.{Error}
use bookstore_golang.Platform.Redis.{Redis}
use bookstore_golang.Database.{Context, World, now_of}
use bookstore_golang.Database.Tx.{within_transaction}
use bookstore_golang.Identity.Entity.{device_assert_ownership}
use bookstore_golang.Identity.Auth.{lift}
use bookstore_golang.Identity.Repo.Device.{get_by_id, revoke}
use bookstore_golang.Identity.Repo.Session.{revoke_all_by_user_id}

module _ {V : Type 0} {R : Redis V} where
  unfoldable pub revoke_all_sessions : Context → ℕ → Action (World R) Error (Unit {0})
  revoke_all_sessions ctx user_id = do now ← now_of; revoke_all_by_user_id ctx user_id now

  unfoldable pub revoke_device_tx : ℕ → ℕ → ℕ → Context → Action (World R) Error (Unit {0})
  revoke_device_tx user_id device_id now tx_ctx = do
    revoke tx_ctx device_id now
    revoke_all_by_user_id tx_ctx user_id now

  unfoldable pub profile_revoke_device : Context → ℕ → ℕ → Action (World R) Error (Unit {0})
  unfolding revoke_device_tx within_transaction
  profile_revoke_device ctx user_id device_id = do
    device ← get_by_id ctx device_id
    lift (device_assert_ownership device user_id)
    now ← now_of
    within_transaction ctx (revoke_device_tx user_id device_id now)
