-- ===== src/Identity/Tokens.antt =====
-- internal/platform/auth/jwt_auth.go: access and refresh tokens, and passwords.
use bookstore_golang.Base.{
  ℕ, ◌+◌, Option, none, some, [], ◌==◌, Action, pure, fail, guard, ◌>>=◌, ◌>>◌,
}
use bookstore_golang.Base.Text.{Str, codes, str_eq}
use bookstore_golang.Errors.{Error, hash_failed, token_failed, invalid_credentials}
use bookstore_golang.Platform.Redis.{Redis}
use bookstore_golang.Database.{World, now_of, draw}
use bookstore_golang.Identity.Library.{Library, Claims}

pub record JwtConfig : Type 0 where
  pub access_token_ttl : ℕ
  pub refresh_token_ttl : ℕ

abbrev pub access_type : Str
access_type = codes "access"

abbrev pub refresh_type : Str
refresh_type = codes "refresh"

abbrev or_fail : {S A : Type 0} → Error → Option A → Action S Error A
or_fail e none = fail e
or_fail e (some a) = pure a

module _ {V : Type 0} {R : Redis V} (l : Library V) (cfg : JwtConfig) where
  -- The token and the time at which it expires.
  unfoldable pub generate_access_token :
      ℕ → Str → Str → Str → Str → Action (World R) Error (Str × ℕ)
  generate_access_token user_id email role session_id device_id = do
    now ← now_of
    n ← draw
    token ← or_fail token_failed (
        l.signed_string (record {
          user_id = user_id;
          email = email;
          role = role;
          type = access_type;
          session_id = session_id;
          device_id = device_id;
          jti = l.uuid n;
          expires_at = now + cfg.access_token_ttl;
          issued_at = now;
        }))
    pure (token, now + cfg.access_token_ttl)

  unfoldable pub generate_refresh_token : ℕ → Str → Str → Str → Action (World R) Error Str
  generate_refresh_token user_id email role device_id = do
    now ← now_of
    n ← draw
    or_fail token_failed (
        l.signed_string (record {
          user_id = user_id;
          email = email;
          role = role;
          type = refresh_type;
          session_id = [];
          device_id = device_id;
          jti = l.uuid n;
          expires_at = now + cfg.refresh_token_ttl;
          issued_at = now;
        }))

module _ {V : Type 0} {R : Redis V} (l : Library V) where
  -- `jwt.ParseWithClaims` checks the signature, the method and the expiry.
  unfoldable pub parse_token : Str → Action (World R) Error Claims
  parse_token token = do now ← now_of; or_fail token_failed (l.parse_with_claims now token)

  unfoldable pub validate_access_token : Str → Action (World R) Error Claims
  unfolding parse_token
  validate_access_token token = do
    claims ← parse_token token
    guard (claims.type == access_type) token_failed
    pure claims

  unfoldable pub validate_refresh_token : Str → Action (World R) Error Claims
  unfolding parse_token
  validate_refresh_token token = do
    claims ← parse_token token
    guard (claims.type == refresh_type) token_failed
    pure claims

  unfoldable pub hash_password : Str → Action (World R) Error Str
  hash_password password = do n ← draw; or_fail hash_failed (l.generate_from_password n password)

  unfoldable pub verify_password : Str → Str → Action (World R) Error (Unit {0})
  verify_password password hash =
      guard (l.compare_hash_and_password hash password) invalid_credentials
