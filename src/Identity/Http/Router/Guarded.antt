-- ===== src/Identity/Http/Router/Guarded.antt =====
-- The routes that a middleware guards.
use bookstore_golang.Base.{
  Bool, true, false, ◌&&◌, ◌==◌, ◌≡◌, subst, some, List, [], ◌∷◌, find, All, Bool-cases, inl, inr,
  arith,
}
use bookstore_golang.Base.Text.{Str, str_eq}
use bookstore_golang.Identity.Http.Router.{
  Gate, auth_gate, Endpoint, register, login, verify_email, Route, register_routes, route_of, pass,
  answer,
}

pub find-All :
    {A : Type 0} (P : A → Type 0) (p : A → Bool) (l : List A) {x : A}
    → All P l
    → find p l ≡ some x
    → P x
unfolding find
find-All P p [] all h = ground arith
find-All P p (y ∷ l) {x} all h = elim (Bool-cases (p y)) [
  | inl here ↦ let e : y ≡ x = ground arith in subst P e all.0
  | inr there ↦ find-All P p l all.1 (ground arith)
]

-- Registration, login and the confirmation of an address are open to everyone.
abbrev pub is_open : Endpoint → Bool
is_open register = true
is_open login = true
is_open verify_email = true
is_open e = false

module _ {W A : Type 0} (gate : Gate → (W → A) → W → A) (handler : Endpoint → W → A) (w : W) (a : A)
    (refuses : (next : W → A) → gate auth_gate next w ≡ a) where
  abbrev IsGuarded : Route → Type 0
  IsGuarded r = is_open r.endpoint ≡ false → answer gate handler r w ≡ a

  register_routes-IsGuarded : All IsGuarded register_routes
  unfolding register_routes answer pass
  register_routes-IsGuarded = (
    (λ h. cc),
    (
      (λ h. cc),
      (
        (λ h. refuses _),
        (
          (λ h. cc),
          (
            (λ h. refuses _),
            (
              (λ h. refuses _),
              (
                (λ h. refuses _),
                (
                  (λ h. refuses _),
                  (
                    (λ h. refuses _),
                    (
                      (λ h. refuses _),
                      (
                        (λ h. refuses _),
                        (
                          (λ h. refuses _),
                          ((λ h. refuses _), ((λ h. refuses _), ((λ h. refuses _), tt))),
                        ),
                      ),
                    ),
                  ),
                ),
              ),
            ),
          ),
        ),
      ),
    ),
  )

  -- If the authentication answers a request in its own way, whatever stands behind it, then every
  -- route that a method and a path give answers it in that way, but for registration, login and
  -- the confirmation of an address.
  pub route_guarded :
      (method path : Str) (r : Route)
      → route_of method path ≡ some r
      → is_open r.endpoint ≡ false
      → answer gate handler r w ≡ a
  unfolding route_of
  route_guarded method path r found closed =
      find-All IsGuarded (λ r. r.method == method && r.path == path) register_routes
        register_routes-IsGuarded found closed
