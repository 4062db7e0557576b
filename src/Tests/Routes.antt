-- ===== src/Tests/Routes.antt =====
-- Routes of the router.
use bookstore_golang.Base.{ℕ, ◌<◌, ◌≡◌, ◌≢◌, arith, refl, some, [], ◌∷◌, ℕ_discrete, find, any}
use bookstore_golang.Base.Text.{codes, Str-discrete, ascii, ascii-IsUnicode}
use bookstore_golang.Config.Sections.{split}
use bookstore_golang.Identity.Http.Router.{
  Gate, auth_gate, strict_gate, idempotency_gate, Endpoint, login, logout, Route, register_routes,
  route_of, resolve_scope, answer,
}
use bookstore_golang.Identity.Http.Router.Guarded.{route_guarded}
use bookstore_golang.Identity.Http.Router.Scopes.{resolve_scope_apart}
use bookstore_golang.Idempotency.Key.{build_key}

-- The authentication answers 401, and the other middlewares hand on.
abbrev refuse_auth : Gate → (ℕ → ℕ) → ℕ → ℕ
refuse_auth auth_gate next w = 401
refuse_auth strict_gate next w = next w
refuse_auth idempotency_gate next w = next w

abbrev created : Endpoint → ℕ → ℕ
created e w = 201

abbrev logout_route : Route
logout_route = record {
  method = codes "POST";
  path = codes "/api/v1/auth/logout";
  gates = auth_gate ∷ idempotency_gate ∷ [];
  endpoint = logout;
}

logout_found : route_of (codes "POST") (codes "/api/v1/auth/logout") ≡ some logout_route
unfolding route_of find register_routes Str-discrete ℕ_discrete
logout_found = refl

route_guarded_example : answer refuse_auth created logout_route 0 ≡ 401
route_guarded_example =
    route_guarded refuse_auth created 0 401 (λ next. refl) (codes "POST")
      (codes "/api/v1/auth/logout") logout_route logout_found refl

abbrev login_route : Route
login_route = record {
  method = codes "POST";
  path = codes "/api/v1/auth/login";
  gates = idempotency_gate ∷ [];
  endpoint = login;
}

login_found : route_of (codes "POST") (codes "/api/v1/auth/login") ≡ some login_route
unfolding route_of find register_routes Str-discrete ℕ_discrete
login_found = refl

ascii_low : (c : ℕ) → c < b'A' → ascii.to_lower c ≡ c
ascii_low c h = ground arith

resolve_scope_apart_example :
    build_key ascii (codes "identity:logout") (codes "k")
    ≢ build_key ascii (codes "identity:login") (codes "k")
unfolding resolve_scope split any ℕ_discrete
resolve_scope_apart_example =
    resolve_scope_apart ascii ascii-IsUnicode ascii_low (codes "POST") (codes "POST")
      (codes "/api/v1/auth/logout") (codes "/api/v1/auth/login") (codes "k") (codes "k")
      logout_route login_route logout_found login_found refl refl (λ e. cc)
