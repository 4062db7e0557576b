-- ===== src/Idempotency/Middleware.antt =====
-- internal/platform/idempotency/middleware.go, over a handler that is a parameter and the clock that
-- it moves on. gin writes a response; a header is set once, and left out when it is empty.
pub mod Replay
use bookstore_golang.Base.{
  ℕ, ◌+◌, Bool, true, false, not, ◌==◌, if◌then◌else◌, Option, none, some, List, [], ◌∷◌, ◌++◌,
  Result, ok, err, filter,
}
use bookstore_golang.Base.Text.{Str, codes, str_eq, Unicode}
use bookstore_golang.Errors.{Error, missing_key, request_hash_mismatch, request_in_progress}
use bookstore_golang.Platform.Redis.{Redis, Codec, Env}
use bookstore_golang.Idempotency.Record.{
  Record, Headers, Response, BeginResult, BeginDecision, replay,
}
use bookstore_golang.Idempotency.Service.{Config, begin_http, complete_http}

-- `http.Header`
abbrev pub HttpHeader : Type 0
HttpHeader = List (Str × List Str)

-- A request, with what of it only the handler reads.
pub record HttpRequest (X : Type 0) : Type 0 where
  pub headers : HttpHeader
  pub body : Str
  pub rest : X

pub record HttpResponse : Type 0 where
  pub status_code : ℕ
  pub headers : HttpHeader
  pub body : Str

-- An error as JSON, or a response.
pub data Reply : Type 0 where
  aborted : ℕ → Error → Reply
  answered : HttpResponse → Reply

pub record MiddlewareConfig (X : Type 0) : Type 0 where
  pub key_header : Str
  pub scope_resolver : Option (HttpRequest X → Str)
  pub request_hasher : Option (HttpRequest X → Str → Result Error Str)

abbrev pub first_value : List Str → Str
first_value [] = []
first_value (v ∷ vs) = v

-- `c.GetHeader`
unfoldable pub get_header : Str → HttpHeader → Str
get_header name [] = []
get_header name ((k, vs) ∷ h) = if k == name then first_value vs else get_header name h

-- `c.Header` on the headers to send
unfoldable pub set_header : Str → Str → HttpHeader → HttpHeader
set_header name value h =
    let others = filter (λ x. not (x.0 == name)) h in
    if value == [] then others else others ++ ((name, value ∷ []) ∷ [])

abbrev pub one_value : Str → List Str → Headers → Headers
one_value k [] out = out
one_value k (v ∷ vs) out = (k, v) ∷ out

unfoldable pub flatten_headers : HttpHeader → Headers
flatten_headers [] = []
flatten_headers ((k, vals) ∷ h) = one_value k vals (flatten_headers h)

-- The `Result` of a response.
abbrev pub kept_response : HttpResponse → Response
kept_response resp = record {
  status_code = resp.status_code;
  body = resp.body;
  headers = flatten_headers resp.headers;
}

unfoldable pub lookup_header : Str → Headers → Str
lookup_header name [] = []
lookup_header name ((k, v) ∷ h) = if k == name then v else lookup_header name h

unfoldable pub content_type : Headers → Str
unfolding lookup_header
content_type headers =
    let v = lookup_header (codes "Content-Type") headers in
    if v == [] then codes "application/json; charset=utf-8" else v

unfoldable pub set_all : Headers → HttpHeader → HttpHeader
unfolding set_header
set_all [] h = h
set_all ((k, v) ∷ headers) h = set_all headers (set_header k v h)

-- The response of the record; `c.Data` sets a content type that is not yet set.
unfoldable pub replay_response : Record → HttpResponse
unfolding set_all content_type set_header get_header
replay_response r =
    let h = set_header (codes "X-Idempotency-Replayed") (codes "true") (set_all r.headers []) in
    record {
      status_code = r.response_code;
      headers =
          if get_header (codes "Content-Type") h == []
          then set_header (codes "Content-Type") (content_type r.headers) h
          else h;
      body = r.response_body;
    }

-- The status of the error of `BeginHTTP`.
abbrev pub begin_error_status : Error → ℕ
begin_error_status request_hash_mismatch = 409
begin_error_status request_in_progress = 409
begin_error_status _ = 500

module _ {X : Type 0} (cfg : MiddlewareConfig X) where
  abbrev pub key_of : HttpRequest X → Str
  key_of r =
      get_header (if cfg.key_header == [] then codes "Idempotency-Key" else cfg.key_header)
        r.headers

  abbrev pub scope_of : HttpRequest X → Str
  scope_of r = elim cfg.scope_resolver [ none ↦ codes "default" | some f ↦ f r ]

  abbrev pub request_hash_of : (Str → Str) → HttpRequest X → Result Error Str
  request_hash_of hash_bytes r = elim cfg.request_hasher [
    | none ↦ ok (hash_bytes r.body)
    | some f ↦ f r r.body
  ]

-- Redis, and the state of the handler.
pub record Server {V : Type 0} (R : Redis V) (S : Type 0) : Type 0 where
  pub env : Env R
  pub app : S

module _ {V : Type 0} (R : Redis V) (json : Codec V Record) (u : Unicode) (svc : Config)
    {X S : Type 0} (hash_bytes : Str → Str) (cfg : MiddlewareConfig X)
    (handler : HttpRequest X → S → (HttpResponse × ℕ) × S) where
  -- `c.Next()`, which takes some time, and `CompleteHTTP`, whose error is dropped.
  unfoldable pub run_handler : HttpRequest X → Server R S → Reply × Server R S
  unfolding complete_http flatten_headers
  run_handler r s =
      let ((resp, took), app) = handler r s.app in
      let env = record (s.env) { now = s.env.now + took } in
      (
        answered resp,
        record {
          env =
              (complete_http R json u svc (scope_of cfg r) (key_of cfg r) (kept_response resp)
                env).1;
          app = app;
        },
      )

  abbrev pub after_begin : HttpRequest X → S → Result Error BeginResult × Env R → Reply × Server R S
  after_begin r app (err e, env) =
      (aborted (begin_error_status e) e, record { env = env; app = app })
  after_begin r app (ok b, env) =
      let run = run_handler r (record { env = env; app = app }) in
      elim b.decision [
        | replay ↦ elim b.found [
          | none ↦ run
          | some rec ↦ (answered (replay_response rec), record { env = env; app = app })
        ]
        | _ ↦ run
      ]

  abbrev pub with_hash : HttpRequest X → Server R S → Result Error Str → Reply × Server R S
  with_hash r s (err e) = (aborted 400 e, s)
  with_hash r s (ok request_hash) =
      after_begin r s.app
        (begin_http R json u svc (scope_of cfg r) (key_of cfg r) request_hash s.env)

  unfoldable pub serve : HttpRequest X → Server R S → Reply × Server R S
  unfolding get_header begin_http run_handler replay_response
  serve r s =
      if key_of cfg r == []
      then (aborted 400 missing_key, s)
      else with_hash r s (request_hash_of cfg hash_bytes r)
