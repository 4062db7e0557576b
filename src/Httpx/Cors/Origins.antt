-- ===== src/Httpx/Cors/Origins.antt =====
-- Which origins a browser is told of.
use bookstore_golang.Base.{
  ◌≡◌, refl, ◌⊎◌, ◌∙◌, false, [], ◌==◌, if◌then◌else◌, Bool-cases, inl, inr, ℕ_discrete,
}
use bookstore_golang.Base.Text.{Str, codes, str_eq, Str-discrete, Unicode}
use bookstore_golang.Config.Others.{CorsConfig}
use bookstore_golang.Httpx.{Page, Handler, returned, get_header}
use bookstore_golang.Httpx.Headers.{get_header-set_header, get_header-set_other, KeepsHeader}
use bookstore_golang.Httpx.Cors.{is_allowed, allow_headers, mark_origin, cors_middleware}

abbrev allow_origin : Str
allow_origin = codes "Access-Control-Allow-Origin"

module _ {S : Type 0} (u : Unicode) (cfg : CorsConfig) where
  allow_headers-origin :
      (origin : Str) (c : Page S)
      → get_header allow_origin (allow_headers u cfg origin c).headers ≡ origin
  unfolding Str-discrete ℕ_discrete
  allow_headers-origin origin c =
      get_header-set_other allow_origin (codes "Access-Control-Allow-Credentials") _ _ refl
      ∙ get_header-set_other allow_origin (codes "Access-Control-Allow-Headers") _ _ refl
      ∙ get_header-set_other allow_origin (codes "Access-Control-Allow-Methods") _ _ refl
      ∙ get_header-set_header allow_origin origin c.headers

  mark_origin-origin :
      (origin : Str) (c : Page S)
      → get_header allow_origin (mark_origin u cfg origin c).headers ≡ (
          if is_allowed u cfg.allowed_origins origin
          then origin
          else get_header allow_origin c.headers)
  mark_origin-origin origin c = elim (Bool-cases (is_allowed u cfg.allowed_origins origin)) [
    | inl listed ↦ rw listed (allow_headers-origin origin c)
    | inr unlisted ↦ rw unlisted refl
  ]

  mark_origin-app : (origin : Str) (c : Page S) → (mark_origin u cfg origin c).app ≡ c.app
  mark_origin-app origin c = elim (Bool-cases (is_allowed u cfg.allowed_origins origin)) [
    | inl listed ↦ rw listed refl
    | inr unlisted ↦ rw unlisted refl
  ]

  -- For a request with an origin and a handler that leaves the header alone, the answer allows the
  -- origin of the request if it is in the list of the settings, and otherwise has in the header
  -- what stood there; a preflight request is answered with the status 204 and does not reach the
  -- handler.
  pub cors_middleware-origin :
      (next : Handler S) (c : Page S)
      → KeepsHeader allow_origin next
      → (c.request.header (codes "Origin") == []) ≡ false
      → let origin = c.request.header (codes "Origin") in
        let r = cors_middleware u cfg next c in
        (get_header allow_origin r.1.headers ≡ (
          if is_allowed u cfg.allowed_origins origin
          then origin
          else get_header allow_origin c.headers))
        × (((c.request.method == codes "OPTIONS") ≡ false)
            ⊎ ((r.0 ≡ returned) × (r.1.status ≡ 204) × (r.1.app ≡ c.app)))
  unfolding cors_middleware
  cors_middleware-origin next c keeps crossing =
      let origin = c.request.header (codes "Origin") in
      elim (Bool-cases (c.request.method == codes "OPTIONS")) [
        | inl asked ↦
            rw (crossing, asked)
              (mark_origin-origin origin c, inr (refl, refl, mark_origin-app origin c))
        | inr plain ↦
            rw (crossing, plain)
              (keeps.kept (mark_origin u cfg origin c) ∙ mark_origin-origin origin c, inl refl)
      ]
