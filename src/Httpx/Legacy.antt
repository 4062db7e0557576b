-- ===== src/Httpx/Legacy.antt =====
-- AuthMiddleware of internal/platform/httpx/auth_context.go.
pub mod Refused
use bookstore_golang.Base.{
  ℕ, suc, Bool, true, false, not, ◌||◌, Option, none, some, List, [], ◌∷◌, ◌==◌, if◌then◌else◌,
}
use bookstore_golang.Base.Text.{Str, codes, str_eq}
use bookstore_golang.Config.Sections.{split}
use bookstore_golang.Httpx.{Page, Handler, Exit, returned, Body, coded, plain_error, abort_with}

-- A value of a JSON object.
pub data Claim : Type 0 where
  text : Str → Claim
  number : ℕ → Claim
  other : Claim

-- `jwt.ParseWithClaims` with the secret of the environment, for the methods of HMAC: the claims of a
-- token that is valid. `uuid.Parse`: the identifier in its canonical text.
pub record TokenLibrary : Type 0 where
  pub parse_with_claims : Str → Option (Str → Option Claim)
  pub parse_uuid : Str → Option Str

abbrev unauthorized : {S : Type 0} → Str → Handler S
unauthorized message = abort_with 401 (coded (codes "UNAUTHORIZED") message)

module _ {S : Type 0} (l : TokenLibrary) (next : Handler S) where
  abbrev admit : Option Str → Handler S
  admit none c = abort_with 401 (plain_error (codes "invalid UUID format")) c
  admit (some user_id) c = next (record c {
    keys = (codes "user_id", user_id) ∷ (codes "is_authenticated", codes "true") ∷ c.keys;
  })

  abbrev with_user_id : Option Claim → Handler S
  with_user_id none = abort_with 401 (plain_error (codes "invalid user ID in token"))
  with_user_id (some (text s)) = admit (l.parse_uuid s)
  with_user_id (some (number n)) = abort_with 401 (plain_error (codes "invalid user ID in token"))
  with_user_id (some other) = abort_with 401 (plain_error (codes "invalid user ID in token"))

  abbrev with_claims : Option (Str → Option Claim) → Handler S
  with_claims none = unauthorized (codes "invalid token")
  with_claims (some claims) = with_user_id (claims (codes "user_id"))

  abbrev with_parts : List Str → Handler S
  with_parts (scheme ∷ token ∷ []) =
      if scheme == codes "Bearer"
      then with_claims (l.parse_with_claims token)
      else unauthorized (codes "invalid authorization header format")
  with_parts parts = unauthorized (codes "invalid authorization header format")

  unfoldable pub legacy_auth_middleware : Handler S
  unfolding split
  legacy_auth_middleware c =
      let auth_header = c.request.header (codes "Authorization") in
      if auth_header == []
      then unauthorized (codes "missing authorization header") c
      else with_parts (split b' ' auth_header) c
