-- ===== src/Httpx/Router/Answers.antt =====
-- What becomes of a request, under its id.
use bookstore_golang.Base.{
  ℕ, ◌≡◌, ◌⊎◌, refl, sym, subst, ap, ◌∙◌, none, some, [], ◌==◌, Bool-cases, inl, inr, ℕ_discrete,
}
use bookstore_golang.Base.Text.{Str, codes, str_eq, Str-discrete, Unicode}
use bookstore_golang.Config.Others.{CorsConfig}
use bookstore_golang.Platform.Counter.{Counters, CounterEnv}
use bookstore_golang.Platform.RateLimit.{
  RateLimitConfig, Passage, passed, too_many, rate_limit_middleware,
}
use bookstore_golang.Httpx.{
  Page, Handler, Exit, returned, panicked, get_header, chosen_id, identified, recovered,
  error_response, request_id_middleware, recovery_middleware, logger_middleware,
}
use bookstore_golang.Httpx.Headers.{get_header-set_header, get_header-set_other}
use bookstore_golang.Httpx.Cors.{is_allowed, mark_origin, cors_middleware}
use bookstore_golang.Httpx.Router.{on_passage, limits, limit_requests, new_router}

abbrev id_header : Str
id_header = codes "X-Request-ID"

-- The handler got a page with the request, the id and the state of the given one, and the answer is
-- what it made of it.
abbrev pub HandedOn :
    {C : Counters} {S : Type 0}
    → Handler (CounterEnv C × S)
    → Page (CounterEnv C × S)
    → Exit × Page (CounterEnv C × S)
    → Type 0
HandedOn {C} {S} h c r =
    (p : Page (CounterEnv C × S)) × (p.request ≡ c.request)
    × (p.request_id ≡ c.request_id)
    × (get_header id_header p.headers ≡ get_header id_header c.headers)
    × (p.app.1 ≡ c.app.1)
    × (r ≡ h p)

-- The request was answered before the handler, with its state as it was.
abbrev pub TurnedAway :
    {C : Counters} {S : Type 0} → Page (CounterEnv C × S) → Exit × Page (CounterEnv C × S) → Type 0
TurnedAway c r =
    (r.0 ≡ returned)
    × ((r.1.status ≡ 204) ⊎ (r.1.status ≡ 429))
    × (get_header id_header r.1.headers ≡ get_header id_header c.headers)
    × (r.1.app.1 ≡ c.app.1)

recovered-id : {S : Type 0} (r : Exit × Page S) → r.0 ≡ returned → recovered r ≡ r
recovered-id (returned, c) e = refl
recovered-id (panicked, c) e = absurd (cc)

module _ {S : Type 0} where
  mark_origin-id :
      (u : Unicode) (cfg : CorsConfig) (origin : Str) (c : Page S)
      → get_header id_header (mark_origin u cfg origin c).headers ≡ get_header id_header c.headers
  unfolding Str-discrete ℕ_discrete
  mark_origin-id u cfg origin c = elim (Bool-cases (is_allowed u cfg.allowed_origins origin)) [
    | inl listed ↦ rw listed (
        get_header-set_other id_header (codes "Access-Control-Allow-Credentials") _ _ refl
        ∙ get_header-set_other id_header (codes "Access-Control-Allow-Headers") _ _ refl
        ∙ get_header-set_other id_header (codes "Access-Control-Allow-Methods") _ _ refl
        ∙ get_header-set_other id_header (codes "Access-Control-Allow-Origin") _ _ refl)
    | inr unlisted ↦ rw unlisted refl
  ]

  mark_origin_rest :
      (u : Unicode) (cfg : CorsConfig) (origin : Str) (c : Page S)
      → let p = mark_origin u cfg origin c in
        (p.request ≡ c.request) × (p.request_id ≡ c.request_id) × (p.app ≡ c.app)
  mark_origin_rest u cfg origin c = elim (Bool-cases (is_allowed u cfg.allowed_origins origin)) [
    | inl listed ↦ rw listed (refl, refl, refl)
    | inr unlisted ↦ rw unlisted (refl, refl, refl)
  ]

module _ {C : Counters} {S : Type 0} (format_int : ℕ → Str) (h : Handler (CounterEnv C × S)) where
  limits-id :
      (l : ℕ × ℕ) (c : Page (CounterEnv C × S))
      → get_header id_header (limits format_int l c).headers ≡ get_header id_header c.headers
  unfolding Str-discrete ℕ_discrete
  limits-id (limit, remaining) c =
      get_header-set_other id_header (codes "X-RateLimit-Remaining") _ _ refl
      ∙ get_header-set_other id_header (codes "X-RateLimit-Limit") _ _ refl

  on_passage_ways :
      (p : Passage) (c : Page (CounterEnv C × S))
      → HandedOn h c (on_passage format_int h p c) ⊎ TurnedAway c (on_passage format_int h p c)
  unfolding error_response Str-discrete ℕ_discrete
  on_passage_ways (passed none) c = inl (c, refl, refl, refl, refl, refl)
  on_passage_ways (passed (some l)) c =
      inl (limits format_int l c, refl, refl, limits-id l c, refl, refl)
  on_passage_ways (too_many l) c = inr (
    refl,
    inr refl,
    get_header-set_other id_header (codes "Retry-After") _ _ refl ∙ limits-id l c,
    refl,
  )

  limit_requests_ways :
      (cfg : RateLimitConfig) (c : Page (CounterEnv C × S))
      → HandedOn h c (limit_requests format_int cfg h c)
        ⊎ TurnedAway c (limit_requests format_int cfg h c)
  unfolding limit_requests
  limit_requests_ways cfg c =
      let r = rate_limit_middleware cfg c.request.client_ip c.app.0 in
      on_passage_ways r.0 (record c { app = (r.1, c.app.1) })

  cors_ways :
      (u : Unicode) (cors : CorsConfig) (cfg : RateLimitConfig) (c : Page (CounterEnv C × S))
      → let r = cors_middleware u cors (limit_requests format_int cfg h) c in
        HandedOn h c r ⊎ TurnedAway c r
  unfolding cors_middleware
  cors_ways u cors cfg c =
      let origin = c.request.header (codes "Origin") in
      let rest = mark_origin_rest u cors origin c in
      let id = mark_origin-id u cors origin c in
      elim (Bool-cases (origin == [])) [
        | inl here ↦ rw here (limit_requests_ways cfg c)
        | inr crossing ↦ elim (Bool-cases (c.request.method == codes "OPTIONS")) [
          | inl asked ↦ rw (crossing, asked) (inr (refl, inl refl, id, ap (λ a. a.1) rest.2))
          | inr plain ↦
              rw (crossing, plain)
                (elim (limit_requests_ways cfg (mark_origin u cors origin c)) [
                  | inl (p, same, name, header, state, e) ↦ inl (
                    p,
                    same ∙ rest.0,
                    name ∙ rest.1,
                    header ∙ id,
                    state ∙ ap (λ a. a.1) rest.2,
                    e,
                  )
                  | inr (ends, status, header, state) ↦
                      inr (ends, status, header ∙ id, state ∙ ap (λ a. a.1) rest.2)
                ])
        ]
      ]

  -- The router puts the id that a request came with, or else the one that was drawn, into the
  -- header X-Request-ID and the context. The request then is either handed to the handler, on a
  -- page with that id in both, the request and the state of the handler as they were, and the
  -- answer is what the recovery makes of the handler on that page; or it is answered with the
  -- status 204 or 429 before the handler, with that id in the header and the state of the handler
  -- as it was.
  pub new_router_answers :
      (uuid : ℕ → Str) (u : Unicode) (cors : CorsConfig) (rate_limit : RateLimitConfig)
      (c : Page (CounterEnv C × S))
      → let r = new_router format_int uuid u cors rate_limit h c in
        let c1 = identified (chosen_id uuid c) c in
        (get_header id_header c1.headers ≡ chosen_id uuid c)
        × (HandedOn (recovery_middleware h) c1 r ⊎ TurnedAway c1 r)
  unfolding new_router request_id_middleware recovery_middleware logger_middleware
  new_router_answers uuid u cors rate_limit c =
      let c1 = identified (chosen_id uuid c) c in
      (
        get_header-set_header id_header (chosen_id uuid c) c.headers,
        elim (cors_ways u cors rate_limit c1) [
          | inl (p, same, name, header, state, e) ↦
              inl (p, same, name, header, state, ap recovered e)
          | inr (ends, status, header, state) ↦
              let kept = recovered-id _ ends in
              inr (
                ap (λ r. r.0) kept ∙ ends,
                subst (λ r. (r.1.status ≡ 204) ⊎ (r.1.status ≡ 429)) (sym kept) status,
                ap (λ r. get_header id_header r.1.headers) kept ∙ header,
                ap (λ r. r.1.app.1) kept ∙ state,
              )
        ],
      )
