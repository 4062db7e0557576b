-- ===== src/Idempotency/Middleware/Replay.antt =====
-- A request, and the requests that repeat it.
use bookstore_golang.Base.{
  ℕ, ◌+◌, ◌<◌, ◌≡◌, ◌≢◌, refl, sym, subst, ◌∙◌, ap, Bool, false, ◌==◌, if◌then◌else◌, some, none,
  [], Result, ok, err, arith, ==-refl,
}
use bookstore_golang.Base.Text.{Str, str_eq, Unicode, IsUnicode, trim}
use bookstore_golang.Errors.{Error, missing_key, request_hash_mismatch}
use bookstore_golang.Platform.Redis.{Redis, IsRedis, Codec, IsCodec, Env}
use bookstore_golang.Idempotency.Key.{normalize_scope, build_key}
use bookstore_golang.Idempotency.Record.{Record, BeginResult, replay}
use bookstore_golang.Idempotency.Store.{complete_record}
use bookstore_golang.Idempotency.Service.{Config, new_record, begin_http, complete_http}
use bookstore_golang.Idempotency.Service.Laws.{at, begin_http_free}
use bookstore_golang.Idempotency.Service.Once.{begin_http-complete_http}
use bookstore_golang.Idempotency.Middleware.{
  HttpRequest, HttpResponse, Reply, answered, MiddlewareConfig, key_of, scope_of, request_hash_of,
  kept_response, replay_response, Server, run_handler, after_begin, with_hash, serve, aborted,
}

filled_==_nil : (s : Str) → s ≢ [] → (s == []) ≡ false
filled_==_nil s h = ground arith

trim_nil : (u : Unicode) → trim u [] ≡ []
unfolding trim
trim_nil u = refl

module _ {V : Type 0} (R : Redis V) (json : Codec V Record) (u : Unicode) (svc : Config)
    {X S : Type 0} (hash_bytes : Str → Str) (cfg : MiddlewareConfig X)
    (handler : HttpRequest X → S → (HttpResponse × ℕ) × S) where
  serve_begun :
      (r : HttpRequest X) (s : Server R S) {hash : Str} {begun : Result Error BeginResult × Env R}
      → key_of cfg r ≢ []
      → request_hash_of cfg hash_bytes r ≡ ok hash
      → begin_http R json u svc (scope_of cfg r) (key_of cfg r) hash s.env ≡ begun
      → serve R json u svc hash_bytes cfg handler r s
        ≡ after_begin R json u svc hash_bytes cfg handler r s.app begun
  unfolding serve
  serve_begun r s keyed hashed begins =
      let answer = with_hash R json u svc hash_bytes cfg handler r s in
      ap
        (λ (b : Bool).
          if b then (aborted 400 missing_key, s) else answer (request_hash_of cfg hash_bytes r))
        (filled_==_nil (key_of cfg r) keyed)
      ∙ ap answer hashed
      ∙ ap (after_begin R json u svc hash_bytes cfg handler r s.app) begins

module _ {V : Type 0} (R : Redis V) (redis : IsRedis R) (json : Codec V Record)
    (lawful : IsCodec json) (u : Unicode) (v : IsUnicode u) (svc : Config) {X S : Type 0}
    (hash_bytes : Str → Str) (cfg : MiddlewareConfig X)
    (handler : HttpRequest X → S → (HttpResponse × ℕ) × S) where
  module _ (r : HttpRequest X) (s : Server R S) {hash : Str} (filled : trim u (key_of cfg r) ≢ [])
      (calm : s.env.faults ≡ [])
      (free : R.get s.env.store s.env.now (build_key u (scope_of cfg r) (key_of cfg r)) ≡ none)
      (hashed : request_hash_of cfg hash_bytes r ≡ ok hash) where
    -- Redis after the first request has begun, and after its response is kept.
    begun_env : Env R
    begun_env = (begin_http R json u svc (scope_of cfg r) (key_of cfg r) hash s.env).1

    completed : Env R
    unfolding begun_env
    completed =
        let run = handler r s.app in
        (complete_http R json u svc (scope_of cfg r) (key_of cfg r) (kept_response run.0.0)
          (at (s.env.now + run.0.1) begun_env)).1

    serve_first :
        serve R json u svc hash_bytes cfg handler r s
        ≡ (answered (handler r s.app).0.0, record { env = completed; app = (handler r s.app).1 })
    unfolding run_handler completed begun_env
    serve_first =
        let begins =
          begin_http_free R json u v svc (scope_of cfg r) (key_of cfg r) hash s.env filled calm
            free in
        let run = handler r s.app in
        serve_begun R json u svc hash_bytes cfg handler r s
          (λ e. filled (ap (trim u) e ∙ trim_nil u)) hashed begins
        ∙ ap
            (λ (e : Env R). (
              answered run.0.0,
              record {
                env =
                    (complete_http R json u svc (scope_of cfg r) (key_of cfg r)
                      (kept_response run.0.0) (at (s.env.now + run.0.1) e)).1;
                app = run.1;
              },
            ))
            (sym (ap (λ x. x.1) begins))

    -- Where the handler answers in time, its answer is kept for the requests that repeat the first one.
    serve_again :
        (r' : HttpRequest X) (t' : ℕ) (app : S)
        → hash ≢ []
        → key_of cfg r' ≡ key_of cfg r
        → scope_of cfg r' ≡ scope_of cfg r
        → request_hash_of cfg hash_bytes r' ≡ ok hash
        → (handler r s.app).0.1 < svc.in_progress_ttl
        → t' < s.env.now + (handler r s.app).0.1 + svc.completed_ttl
        → let rec =
            new_record
              (build_key u (scope_of cfg r) (key_of cfg r))
              (normalize_scope u (scope_of cfg r))
              hash
              s.env.now in
          let waited : Server R S = record { env = at t' completed; app = app } in
          serve R json u svc hash_bytes cfg handler r' waited ≡ (
            answered (
                replay_response (
                  complete_record rec
                    (kept_response (handler r s.app).0.0)
                    (s.env.now + (handler r s.app).0.1))),
            waited,
          )
    unfolding completed begun_env
    serve_again r' t' app nonempty same_key same_scope hashed' quick early =
        let t = s.env.now + (handler r s.app).0.1 in
        let rec =
          complete_record
            (new_record (build_key u (scope_of cfg r) (key_of cfg r))
              (normalize_scope u (scope_of cfg r)) hash s.env.now)
            (kept_response (handler r s.app).0.0) t in
        let waited : Env R = at t' completed in
        let found : BeginResult = record { decision = replay; found = some rec } in
        serve_begun R json u svc hash_bytes cfg handler r' (record { env = waited; app = app })
          (λ e. filled (ap (trim u) (sym same_key ∙ e) ∙ trim_nil u)) hashed'
          (ap (λ k. begin_http R json u svc (scope_of cfg r') k hash waited) same_key
            ∙ ap (λ k. begin_http R json u svc k (key_of cfg r) hash waited) same_scope
            ∙ begin_http-complete_http R redis json lawful u v svc (scope_of cfg r) (key_of cfg r)
                hash s.env filled calm free hash (kept_response (handler r s.app).0.0) t t'
                (omega (arith, quick)) early nonempty
            ∙ ap (λ (b : Bool). (if b then ok found else err request_hash_mismatch, waited))
                (==-refl hash))

    -- When Redis and the JSON of records keep what they are given and no call of Redis fails: a
    -- first request whose key is not blank, free, and whose body hash is not empty is answered by
    -- the handler; if the handler takes less than the in-progress time to live, a later request
    -- with the same key, scope and body hash, whoever sends it, is answered with the kept response
    -- until that runs out, while neither Redis nor the state of the handler changes.
    pub serve-serve :
        (r' : HttpRequest X) (t' : ℕ)
        → hash ≢ []
        → key_of cfg r' ≡ key_of cfg r
        → scope_of cfg r' ≡ scope_of cfg r
        → request_hash_of cfg hash_bytes r' ≡ ok hash
        → (handler r s.app).0.1 < svc.in_progress_ttl
        → t' < s.env.now + (handler r s.app).0.1 + svc.completed_ttl
        → let rec =
            new_record
              (build_key u (scope_of cfg r) (key_of cfg r))
              (normalize_scope u (scope_of cfg r))
              hash
              s.env.now in
          let kept =
            complete_record rec
              (kept_response (handler r s.app).0.0)
              (s.env.now + (handler r s.app).0.1) in
          let first = serve R json u svc hash_bytes cfg handler r s in
          let waited : Server R S = record (first.1) { env = at t' first.1.env } in
          (first.0 ≡ answered (handler r s.app).0.0)
          × (first.1.app ≡ (handler r s.app).1)
          × (serve R json u svc hash_bytes cfg handler r' waited
              ≡ (answered (replay_response kept), waited))
    serve-serve r' t' nonempty same_key same_scope hashed' quick early =
        let kept =
          complete_record
            (new_record (build_key u (scope_of cfg r) (key_of cfg r))
              (normalize_scope u (scope_of cfg r)) hash s.env.now)
            (kept_response (handler r s.app).0.0) (s.env.now + (handler r s.app).0.1) in
        (
          ap (λ x. x.0) serve_first,
          ap (λ x. x.1.app) serve_first,
          subst
              (λ (x : Reply × Server R S).
                serve R json u svc hash_bytes cfg handler r' (record (x.1) { env = at t' x.1.env })
                ≡ (answered (replay_response kept), record (x.1) { env = at t' x.1.env }))
              (sym serve_first)
              (serve_again r' t' (handler r s.app).1 nonempty same_key same_scope hashed' quick
                early),
        )
