-- ===== src/Identity/Auth/Verify.antt =====
-- `Logout` and `VerifyEmail`
use bookstore_golang.Base.{Action, ◌>>=◌}
use bookstore_golang.Base.Text.{Str}
use bookstore_golang.Errors.{Error}
use bookstore_golang.Platform.Redis.{Redis}
use bookstore_golang.Database.{Context, World, now_of}
use bookstore_golang.Identity.Library.{Library}
use bookstore_golang.Identity.Cache.{parse_verify_token}
use bookstore_golang.Identity.Repo.User.{mark_email_verified}
use bookstore_golang.Identity.Repo.Session.{revoke}
use bookstore_golang.Identity.Auth.{LogoutCommand}

module _ {V : Type 0} {R : Redis V} (ctx : Context) where
  unfoldable pub logout : LogoutCommand → Action (World R) Error (Unit {0})
  logout cmd = do now ← now_of; revoke ctx cmd.device_id cmd.user_id now

  unfoldable pub verify_email : Library V → Str → Action (World R) Error (Unit {0})
  unfolding parse_verify_token
  verify_email l token = do
    user_id ← parse_verify_token l token
    now ← now_of
    mark_email_verified ctx user_id now
