-- ===== src/Identity/Http/Router.antt =====
-- internal/modules/identity/http/router.go: the routes and the middlewares before their handlers, and
-- the ScopeResolver of `ProvideGinEngine` in internal/bootstrap/providers.go. gin appends the path of a
-- route to the path of its group and runs the middlewares of the group first.
pub mod Guarded
pub mod Scopes
use bookstore_golang.Base.{
  Bool, true, false, ◌&&◌, ◌==◌, if◌then◌else◌, Option, none, some, List, [], ◌∷◌, ◌++◌, find,
}
use bookstore_golang.Base.Text.{Str, codes, str_eq}
use bookstore_golang.Config.Sections.{split}

-- The middlewares.
pub data Gate : Type 0 where
  auth_gate strict_gate idempotency_gate : Gate

-- The handlers.
pub data Endpoint : Type 0 where
  register login refresh_token verify_email logout : Endpoint
  get_me list_sessions revoke_all_sessions change_password list_devices revoke_device : Endpoint
  list_addresses add_address update_address delete_address : Endpoint

pub record Route : Type 0 where
  pub method : Str
  pub path : Str
  pub gates : List Gate
  pub endpoint : Endpoint

-- `gin.RouterGroup`
pub record Group : Type 0 where
  pub base : Str
  pub before : List Gate

abbrev pub handle : Group → Str → Str → List Gate → Endpoint → Route
handle g method path gates endpoint = record {
  method = method;
  path = g.base ++ path;
  gates = g.before ++ gates;
  endpoint = endpoint;
}

abbrev pub api : Group
api = record { base = codes "/api/v1"; before = [] }

abbrev pub auth : Group
auth = record { base = api.base ++ codes "/auth"; before = api.before }

abbrev pub me : Group
me = record { base = api.base ++ codes "/me"; before = api.before ++ (auth_gate ∷ []) }

unfoldable pub register_routes : List Route
register_routes =
    handle auth (codes "POST") (codes "/register") (idempotency_gate ∷ []) register
    ∷ handle auth (codes "POST") (codes "/login") (idempotency_gate ∷ []) login
    ∷ handle auth (codes "POST") (codes "/refresh-token") (auth_gate ∷ idempotency_gate ∷ [])
        refresh_token
    ∷ handle auth (codes "POST") (codes "/verify-email") (idempotency_gate ∷ []) verify_email
    ∷ handle auth (codes "POST") (codes "/logout") (auth_gate ∷ idempotency_gate ∷ []) logout
    ∷ handle me (codes "GET") [] [] get_me
    ∷ handle me (codes "GET") (codes "/sessions") [] list_sessions
    ∷ handle me (codes "DELETE") (codes "/sessions") [] revoke_all_sessions
    ∷ handle me (codes "POST") (codes "/change-password") (strict_gate ∷ idempotency_gate ∷ [])
        change_password
    ∷ handle me (codes "GET") (codes "/devices") [] list_devices
    ∷ handle me (codes "DELETE") (codes "/devices/:deviceId") [] revoke_device
    ∷ handle me (codes "GET") (codes "/addresses") [] list_addresses
    ∷ handle me (codes "POST") (codes "/addresses") [] add_address
    ∷ handle me (codes "PATCH") (codes "/addresses/:addressId") [] update_address
    ∷ handle me (codes "DELETE") (codes "/addresses/:addressId") [] delete_address
    ∷ []

-- The route of a method and a path with its parameters, which is `FullPath`.
unfoldable pub route_of : Str → Str → Option Route
unfolding find register_routes
route_of method path = find (λ r. r.method == method && r.path == path) register_routes

abbrev pub last_part : List Str → Str
last_part [] = []
last_part (p ∷ []) = p
last_part (p ∷ q ∷ parts) = last_part (q ∷ parts)

-- `ScopeResolver`
unfoldable pub resolve_scope : Str → Str
unfolding split
resolve_scope full_path = codes "identity:" ++ last_part (split b'/' full_path)

-- A middleware takes what stands behind it; the handlers are a parameter.
module _ {W A : Type 0} (gate : Gate → (W → A) → W → A) (handler : Endpoint → W → A) where
  unfoldable pub pass : List Gate → Endpoint → W → A
  pass [] e = handler e
  pass (g ∷ gs) e = gate g (pass gs e)

  unfoldable pub answer : Route → W → A
  unfolding pass
  answer r = pass r.gates r.endpoint
