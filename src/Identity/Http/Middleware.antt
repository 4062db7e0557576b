-- ===== src/Identity/Http/Middleware.antt =====
-- internal/modules/identity/http/middleware/auth_middleware.go and strict_auth.go. What follows a
-- middleware is a parameter.
pub mod Revoked
use bookstore_golang.Base.{
  ℕ, Bool, true, false, not, ◌||◌, ◌==◌, nat_eq, if◌then◌else◌, Option, none, some, List, [], ◌∷◌,
  Result, ok, err,
}
use bookstore_golang.Base.Text.{Str, codes, str_eq, trim}
use bookstore_golang.Errors.{Error}
use bookstore_golang.Platform.Redis.{Redis}
use bookstore_golang.Database.{World}
use bookstore_golang.Identity.Library.{Library, Claims}
use bookstore_golang.Identity.Tokens.{validate_access_token}
use bookstore_golang.Identity.Blacklist.{is_token_blacklisted}

pub record AuthContext : Type 0 where
  pub user_id : ℕ
  pub email : Str
  pub role : Str
  pub device_id : ℕ
  pub session_id : ℕ
  pub jti : Str

-- A request that is refused, with a status and a code, or what comes of handing it on.
pub data Reply (A : Type 0) : Type 0 where
  refused : ℕ → Str → Reply A
  handed_on : A → Reply A

abbrev pub before_space : ℕ → Option (Str × Str) → Option (Str × Str)
before_space c none = none
before_space c (some (s, t)) = some (c ∷ s, t)

-- `strings.SplitN(s, " ", 2)`, which has two parts where there is a space.
unfoldable pub split_space : Str → Option (Str × Str)
split_space [] = none
split_space (c ∷ s) =
    let rest = split_space s in if c == b' ' then some ([], s) else before_space c rest

-- `strings.EqualFold`, and `strconv.ParseInt` without its error
pub record HeaderLibrary : Type 0 where
  pub equal_fold : Str → Str → Bool
  pub parse_int : Str → ℕ

abbrev pub context_of : HeaderLibrary → Claims → AuthContext
context_of h claims = record {
  user_id = claims.user_id;
  email = claims.email;
  role = claims.role;
  session_id = h.parse_int claims.session_id;
  device_id = h.parse_int claims.device_id;
  jti = claims.jti;
}

module _ {V : Type 0} {R : Redis V} (l : Library V) (h : HeaderLibrary) {A : Type 0} where
  abbrev pub after_validation :
      (AuthContext → World R → Reply A × World R)
      → Result Error Claims × World R
      → Reply A × World R
  after_validation next (err e, w) = (refused 401 (codes "INVALID_TOKEN"), w)
  after_validation next (ok claims, w) = next (context_of h claims) w

  abbrev pub with_parts :
      (AuthContext → World R → Reply A × World R) → Option (Str × Str) → World R → Reply A × World R
  with_parts next none w = (refused 401 (codes "INVALID_TOKEN_FORMAT"), w)
  with_parts next (some (scheme, token)) w =
      if not (h.equal_fold scheme (codes "Bearer"))
      then (refused 401 (codes "INVALID_TOKEN_FORMAT"), w)
      else after_validation next (validate_access_token l (trim l.unicode token) w)

  unfoldable pub auth_middleware :
      (AuthContext → World R → Reply A × World R) → Str → World R → Reply A × World R
  unfolding split_space validate_access_token
  auth_middleware next auth_header w =
      if auth_header == []
      then (refused 401 (codes "MISSING_TOKEN"), w)
      else with_parts next (split_space auth_header) w

module _ {V : Type 0} {R : Redis V} {A : Type 0} where
  abbrev after_check :
      (AuthContext → World R → Reply A × World R)
      → AuthContext
      → Result Error Bool × World R
      → Reply A × World R
  after_check next ac (err e, w) = (refused 500 (codes "Internal server error"), w)
  after_check next ac (ok true, w) = (refused 401 (codes "Unauthorized: Token revoked"), w)
  after_check next ac (ok false, w) = next ac w

  -- The check of the blacklist, which stands behind the authentication.
  unfoldable pub strict_auth_middleware :
      (AuthContext → World R → Reply A × World R) → AuthContext → World R → Reply A × World R
  unfolding is_token_blacklisted
  strict_auth_middleware next ac w =
      if ac.jti == []
      then (refused 401 (codes "Unauthorized: Missing JTI"), w)
      else after_check next ac (is_token_blacklisted ac.jti w)
