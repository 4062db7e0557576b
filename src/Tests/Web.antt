-- ===== src/Tests/Web.antt =====
-- The middlewares of every request.
use bookstore_golang.Base.{
  ℕ, ◌+◌, ◌≡◌, refl, ◌⊎◌, false, none, [], ◌∷◌, ◌==◌, ℕ_discrete, if◌then◌else◌,
}
use bookstore_golang.Base.Text.{Str, codes, str_eq, Str-discrete, ascii}
use bookstore_golang.Config.Others.{load_cors_config}
use bookstore_golang.Platform.Counter.{CounterEnv}
use bookstore_golang.Platform.Counter.Memory.{counters}
use bookstore_golang.Platform.RateLimit.{RateLimitConfig}
use bookstore_golang.Httpx.{
  Request, Page, Handler, returned, panicked, empty, get_header, chosen_id, identified,
  recovery_middleware,
}
use bookstore_golang.Httpx.Cors.{is_allowed, cors_middleware}
use bookstore_golang.Httpx.Cors.Origins.{cors_middleware-origin}
use bookstore_golang.Httpx.Router.{new_router}
use bookstore_golang.Httpx.Router.Answers.{HandedOn, TurnedAway, new_router_answers}

abbrev headers : Str → Str
headers name =
    if name == codes "Origin"
    then codes "http://evil.example"
    else if name == codes "Authorization"
    then codes "Bearer t"
    else []

abbrev preflight : Request
preflight = record { method = codes "OPTIONS"; header = headers; client_ip = codes "::1" }

abbrev page_of : {S : Type 0} → Request → S → Page S
page_of r s = record {
  request = r;
  keys = [];
  request_id = [];
  status = 200;
  headers = [];
  body = empty;
  draws = 7;
  app = s;
}

-- A handler that counts, and one that panics.
abbrev counts : Handler ℕ
counts c = (returned, record c { app = c.app + 1 })

abbrev crashes : {S : Type 0} → Handler S
crashes c = (panicked, c)

cors_middleware-origin_example :
    let r = cors_middleware ascii load_cors_config counts (page_of preflight 0) in
    (get_header (codes "Access-Control-Allow-Origin") r.1.headers ≡ (
      if is_allowed ascii load_cors_config.allowed_origins (codes "http://evil.example")
      then codes "http://evil.example"
      else get_header (codes "Access-Control-Allow-Origin") []))
    × (((codes "OPTIONS" == codes "OPTIONS") ≡ false)
        ⊎ ((r.0 ≡ returned) × (r.1.status ≡ 204) × (r.1.app ≡ 0)))
unfolding Str-discrete ℕ_discrete
cors_middleware-origin_example =
    cors_middleware-origin ascii load_cors_config counts (page_of preflight 0)
      (record { kept = λ c. refl }) refl

abbrev limit_off : RateLimitConfig
limit_off = record { enabled = false; request_per_minute = 100 }

abbrev calm : CounterEnv counters
calm = record { store = λ k. none; now = 100; faults = [] }

abbrev first_page : Page (CounterEnv counters × ℕ)
first_page = page_of (record preflight { method = codes "GET" }) (calm, 0)

abbrev own_id : ℕ → Str
own_id n = n ∷ []

new_router_answers_example :
    let r = new_router own_id own_id ascii load_cors_config limit_off crashes first_page in
    let c1 = identified (chosen_id own_id first_page) first_page in
    (get_header (codes "X-Request-ID") c1.headers ≡ chosen_id own_id first_page)
    × (HandedOn (recovery_middleware crashes) c1 r ⊎ TurnedAway c1 r)
new_router_answers_example =
    new_router_answers own_id crashes own_id ascii load_cors_config limit_off first_page
