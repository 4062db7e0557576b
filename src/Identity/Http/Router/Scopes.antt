-- ===== src/Identity/Http/Router/Scopes.antt =====
-- The scopes of the idempotency keys, and the routes that they belong to.
use bookstore_golang.Base.{
  ℕ, ◌<◌, Bool, true, false, ◌&&◌, ◌||◌, ◌==◌, nat_eq, ◌≡◌, ◌≢◌, refl, Option, none, some,
  if◌then◌else◌, [], ◌∷◌, any, All, ℕ_discrete, Bool-cases, inl, inr, arith, ltb, leb,
}
use mathlib.Core.Path.{ap₂}
use bookstore_golang.Base.Text.{Str, codes, str_eq, Str-discrete, Unicode, IsUnicode, lower}
use bookstore_golang.Base.Text.Trim.{FrontVisible, BackVisible, trim-id}
use bookstore_golang.Config.Sections.{split}
use bookstore_golang.Idempotency.Key.{normalize_scope, build_key, replace_all, default_if_empty}
use bookstore_golang.Idempotency.Key.Normal.{build_key-eq_iff}
use bookstore_golang.Identity.Http.Router.{
  Gate, idempotency_gate, Endpoint, register, login, refresh_token, verify_email, logout,
  change_password, Route, register_routes, route_of, resolve_scope,
}
use bookstore_golang.Identity.Http.Router.Guarded.{find-All}

abbrev is_idempotency : Gate → Bool
is_idempotency idempotency_gate = true
is_idempotency g = false

abbrev pub is_idempotent : Route → Bool
is_idempotent r = any is_idempotency r.gates

-- The handler that a normalised scope belongs to.
unfoldable named : Str → Option Endpoint
named s =
    if s == codes "identity_register"
    then some register
    else if s == codes "identity_login"
    then some login
    else if s == codes "identity_refresh-token"
    then some refresh_token
    else if s == codes "identity_verify-email"
    then some verify_email
    else if s == codes "identity_logout"
    then some logout
    else if s == codes "identity_change-password"
    then some change_password
    else none

-- Small letters, and signs below the capitals.
abbrev is_plain : ℕ → Bool
is_plain c = (leb b'a' c && leb c b'z') || ltb c b'A'

unfoldable are_plain : Str → Bool
are_plain [] = true
are_plain (c ∷ s) = is_plain c && are_plain s

-- A scope with its signs replaced.
abbrev folded : Str → Str
folded s =
    default_if_empty (replace_all b':' b'_' (replace_all b'/' b'_' (replace_all b' ' b'_' s)))

module _ (u : Unicode) (v : IsUnicode u) (low : (c : ℕ) → c < b'A' → u.to_lower c ≡ c) where
  lower_plain : (s : Str) → are_plain s ≡ true → lower u s ≡ s
  unfolding are_plain
  lower_plain [] h = refl
  lower_plain (c ∷ s) h =
      let same : u.to_lower c ≡ c = elim (Bool-cases (leb b'a' c && leb c b'z')) [
        | inl small ↦ v.to_lower_small c (ground arith) (ground arith)
        | inr other ↦ low c (ground arith)
      ] in
      ap₂ ◌∷◌ same (lower_plain s (ground arith))

  named_plain :
      (s : Str) (e : Endpoint)
      → are_plain s ≡ true
      → FrontVisible u s
      → BackVisible u s
      → named (folded s) ≡ some e
      → named (normalize_scope u s) ≡ some e
  unfolding normalize_scope
  named_plain s e plain front back h = rw (lower_plain s plain, trim-id u s front back) h

  abbrev IsNamed : Route → Type 0
  IsNamed r =
      is_idempotent r ≡ true → named (normalize_scope u (resolve_scope r.path)) ≡ some r.endpoint

  visible : (c : ℕ) → (leb b'a' c && leb c b'z') ≡ true → u.is_space c ≡ false
  visible c h = v.small_visible c (ground arith) (ground arith)

  register_routes-IsNamed : All IsNamed register_routes
  unfolding register_routes resolve_scope split Str-discrete ℕ_discrete named any are_plain
  register_routes-IsNamed = (
    (λ h.
        named_plain (codes "identity:register") register refl (visible b'i' (ground arith))
          (visible b'r' (ground arith)) refl),
    (
      (λ h.
          named_plain (codes "identity:login") login refl (visible b'i' (ground arith))
            (visible b'n' (ground arith)) refl),
      (
        (λ h.
            named_plain (codes "identity:refresh-token") refresh_token refl
              (visible b'i' (ground arith)) (visible b'n' (ground arith)) refl),
        (
          (λ h.
              named_plain (codes "identity:verify-email") verify_email refl
                (visible b'i' (ground arith)) (visible b'l' (ground arith)) refl),
          (
            (λ h.
                named_plain (codes "identity:logout") logout refl (visible b'i' (ground arith))
                  (visible b't' (ground arith)) refl),
            (
              (λ h. cc),
              (
                (λ h. cc),
                (
                  (λ h. cc),
                  (
                    (λ h.
                        named_plain (codes "identity:change-password") change_password refl
                          (visible b'i' (ground arith)) (visible b'd' (ground arith)) refl),
                    (
                      (λ h. cc),
                      ((λ h. cc), ((λ h. cc), ((λ h. cc), ((λ h. cc), ((λ h. cc), tt))))),
                    ),
                  ),
                ),
              ),
            ),
          ),
        ),
      ),
    ),
  )

  -- Where the signs below the capital letters have no other case, besides what is assumed of the
  -- unicode tables: the keys in Redis of two routes that stand behind the idempotency middleware
  -- and have different handlers, each given by a method and a path, are different, whatever the
  -- idempotency keys of the requests are.
  pub resolve_scope_apart :
      (method method' path path' key key' : Str) (r s : Route)
      → route_of method path ≡ some r
      → route_of method' path' ≡ some s
      → is_idempotent r ≡ true
      → is_idempotent s ≡ true
      → r.endpoint ≢ s.endpoint
      → build_key u (resolve_scope r.path) key ≢ build_key u (resolve_scope s.path) key'
  unfolding route_of
  resolve_scope_apart method method' path path' key key' r s found found' kept kept' apart same =
      let here =
        find-All IsNamed (λ r. r.method == method && r.path == path) register_routes
          register_routes-IsNamed found kept in
      let there =
        find-All IsNamed (λ r. r.method == method' && r.path == path') register_routes
          register_routes-IsNamed found' kept' in
      let scopes =
        ((build_key-eq_iff u v (resolve_scope r.path) (resolve_scope s.path) key key').0 same).0 in
      apart (cc)
