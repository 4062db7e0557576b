-- ===== src/Config/Sections/Ttl.antt =====
-- The times that the settings of tokens give.
use bookstore_golang.Base.{
  ℕ, ◌*◌, ◌<◌, ◌≡◌, refl, sym, eq_of_==, ap, ◌∙◌, ◌==◌, nat_eq, [], some, ok, Bool-cases, inl, inr,
  arith,
}
use bookstore_golang.Base.Int.{ℤ, pos, wrap, duration, atoi}
use bookstore_golang.Base.Text.{Str, codes, str_eq}
use bookstore_golang.Config.{Environment, must_get_env, get_env_as_int}
use bookstore_golang.Config.Sections.{JwtConfig, load_jwt_config, minute, hour}

-- Where nothing overflows a duration is the product.
duration_small :
    (unit n : ℕ) → n * unit < 9223372036854775808 → duration unit (pos n) ≡ pos (n * unit)
unfolding duration wrap
duration_small unit n h = ground arith

get_env_as_int_read :
    (key : Str) (def : ℤ) (env : Environment) (z : ℤ)
    → atoi (env key) ≡ some z
    → get_env_as_int key def env ≡ (ok z, env)
unfolding get_env_as_int atoi
get_env_as_int_read key def env z e = elim (Bool-cases (env key == [])) [
  | inl empty ↦
      let nothing : atoi [] ≡ some z = ap atoi (sym (eq_of_== (env key) [] empty)) ∙ e in
      absurd (cc)
  | inr there ↦ rw (there, e) refl
]

-- If the settings of tokens load where JWT_ACCESS_TOKEN_TTL_MINUTES is a number whose hours do not
-- overflow, an access token lives that many hours, which is 60 times as many minutes.
load_jwt_config_hours :
    (env : Environment) (n : ℕ) {c : JwtConfig}
    → (load_jwt_config env).0 ≡ ok c
    → atoi (env (codes "JWT_ACCESS_TOKEN_TTL_MINUTES")) ≡ some (pos n)
    → n * hour < 9223372036854775808
    → (c.access_token_ttl ≡ pos (n * hour)) × (n * hour ≡ 60 * (n * minute))
unfolding load_jwt_config must_get_env
load_jwt_config_hours env n {c} loaded read small = (
  ground (
    arith,
    duration_small hour n,
    get_env_as_int_read (codes "JWT_ACCESS_TOKEN_TTL_MINUTES") (pos 24) env (pos n) read,
  ),
  omega arith,
)
