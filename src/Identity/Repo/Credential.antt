-- ===== src/Identity/Repo/Credential.antt =====
-- internal/modules/identity/infra/postgres/credential_repo.go. The key of `user_credentials` is
-- user_id.
use bookstore_golang.Base.{
  ℕ, Bool, Option, none, some, [], ◌∷◌, ◌++◌, ◌==◌, nat_eq, if◌then◌else◌, Result, ok, err, Action,
  find, update, count, any,
}
use bookstore_golang.Base.Text.{Str}
use bookstore_golang.Errors.{Error, credential_not_found, unique_violation}
use bookstore_golang.Platform.Redis.{Redis}
use bookstore_golang.Database.{Context, World, Statement, execute}
use bookstore_golang.Identity.Entity.{Credential}

abbrev pub is_of : ℕ → Credential → Bool
is_of user_id r = r.user_id == user_id

abbrev or_credential_not_found : Option Credential → Result Error Credential
or_credential_not_found none = err credential_not_found
or_credential_not_found (some r) = ok r

unfoldable pub query_credential_get_by_user_id : ℕ → Statement Credential
query_credential_get_by_user_id user_id now id d =
    (or_credential_not_found (find (is_of user_id) d.credentials), d)

unfoldable pub query_insert : Credential → Statement (Unit {0})
query_insert cred now id d =
    if any (is_of cred.user_id) d.credentials
    then (err unique_violation, d)
    else (ok tt, record d { credentials = d.credentials ++ (cred ∷ []) })

unfoldable pub query_update_password_hash : ℕ → Str → ℕ → Statement (Unit {0})
query_update_password_hash user_id hash changed_at now id d =
    if count (is_of user_id) d.credentials == 0 then (err credential_not_found, d) else (
      ok tt,
      record d {
        credentials =
            update (is_of user_id)
              (λ r. record r { password_hash = hash; password_changed_at = changed_at })
              d.credentials;
      },
    )

-- The methods of `CredentialRepository`: each runs its statement on the context's executor.
module _ {V : Type 0} {R : Redis V} (c : Context) where
  abbrev pub get_by_user_id : ℕ → Action (World R) Error Credential
  get_by_user_id user_id = execute c (query_credential_get_by_user_id user_id)

  abbrev pub insert_credential : Credential → Action (World R) Error (Unit {0})
  insert_credential cred = execute c (query_insert cred)

  abbrev pub update_password_hash : ℕ → Str → ℕ → Action (World R) Error (Unit {0})
  update_password_hash user_id hash changed_at =
      execute c (query_update_password_hash user_id hash changed_at)
