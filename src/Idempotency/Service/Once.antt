-- ===== src/Idempotency/Service/Once.antt =====
-- Requests with one key, over time, where no call of Redis fails.
use bookstore_golang.Base.{
  ℕ, ◌+◌, ◌<◌, ◌≤◌, ◌≡◌, ◌≢◌, true, none, some, [], ok, err, ◌==◌, if◌then◌else◌, arith, ==-refl,
  ap,
}
use bookstore_golang.Base.Text.{Str, str_eq, Unicode, IsUnicode, trim}
use bookstore_golang.Errors.{request_hash_mismatch, request_in_progress}
use bookstore_golang.Platform.Redis.{Redis, IsRedis, Codec, IsCodec, Env}
use bookstore_golang.Idempotency.Key.{normalize_scope, build_key}
use bookstore_golang.Idempotency.Store.{complete_record}
use bookstore_golang.Idempotency.Record.{Record, replay, Response}
use bookstore_golang.Idempotency.Service.{
  Config, new_record, begin_http, complete_http, release_http,
}
use bookstore_golang.Idempotency.Service.Laws.{
  at, begin_http_free, begin_http_held, complete_http_held, complete_http_gone, release_http_lem,
  lets_through,
}

module _ {V : Type 0} (R : Redis V) (redis : IsRedis R) (json : Codec V Record)
    (lawful : IsCodec json) (u : Unicode) (v : IsUnicode u) (cfg : Config) where
  -- The key space after a first request at `e.now`.
  begun : (scope raw_key request_hash : Str) (e : Env R) → Env R
  begun scope raw_key request_hash e =
      let key = build_key u scope raw_key in
      let rec = new_record key (normalize_scope u scope) request_hash e.now in
      record e { store = R.set e.store e.now key (json.encode rec) cfg.in_progress_ttl }

  module _ (scope raw_key request_hash : Str) (e : Env R) (filled : trim u raw_key ≢ [])
      (calm : e.faults ≡ []) (free : R.get e.store e.now (build_key u scope raw_key) ≡ none) where
    first : Record
    first = new_record (build_key u scope raw_key) (normalize_scope u scope) request_hash e.now

    begin_http-begun :
        (begin_http R json u cfg scope raw_key request_hash e).1
        ≡ begun scope raw_key request_hash e
    unfolding begun
    begin_http-begun =
        ap (λ r. r.1) (begin_http_free R json u v cfg scope raw_key request_hash e filled calm free)

    get-begun :
        (t : ℕ)
        → t < e.now + cfg.in_progress_ttl
        → R.get (begun scope raw_key request_hash e).store t (build_key u scope raw_key)
          ≡ some (json.encode first)
    unfolding begun first
    get-begun t h = rw redis.get-set (ground (arith, ==-refl (build_key u scope raw_key)))

    get-lapsed :
        (t : ℕ)
        → 0 < cfg.in_progress_ttl
        → e.now + cfg.in_progress_ttl ≤ t
        → R.get (begun scope raw_key request_hash e).store t (build_key u scope raw_key) ≡ none
    unfolding begun
    get-lapsed t set h = rw redis.get-set (ground (arith, ==-refl (build_key u scope raw_key)))

    -- When no call of Redis fails, while a first request with a key that is not blank and a body
    -- hash that is not empty is within its in-progress time to live on a key that was free, a
    -- second one with the key is refused: as in progress if its body hash is the first one, as a
    -- mismatch otherwise; nothing changes.
    pub begin_http-begin_http :
        (other : Str) (t : ℕ)
        → t < e.now + cfg.in_progress_ttl
        → request_hash ≢ []
        → let e1 = (begin_http R json u cfg scope raw_key request_hash e).1 in
          begin_http R json u cfg scope raw_key other (at t e1) ≡ (
            err (if other == request_hash then request_in_progress else request_hash_mismatch),
            at t e1,
          )
    unfolding first new_record begun
    begin_http-begin_http other t h hashed = rw begin_http-begun (
        ground (
          arith,
          begin_http_held R json u v cfg scope raw_key other
              (at t (begun scope raw_key request_hash e)) first filled calm (get-begun t h)
              (lawful.decode-encode first),
        ))

    -- After its response is kept, the record is the first request's with that response.
    completed_env : (t : ℕ) (result : Response) → Env R
    completed_env t result = record e {
      now = t;
      store =
          R.set (begun scope raw_key request_hash e).store t (build_key u scope raw_key)
            (json.encode (complete_record first result t)) cfg.completed_ttl;
    }

    complete_http-begun :
        (t : ℕ) (result : Response)
        → t < e.now + cfg.in_progress_ttl
        → (complete_http R json u cfg scope raw_key result
            (at t (begin_http R json u cfg scope raw_key request_hash e).1)).1
          ≡ completed_env t result
    unfolding completed_env begun
    complete_http-begun t result h = rw begin_http-begun (
        ap (λ r. r.1)
          (complete_http_held R json u v cfg scope raw_key result
            (at t (begun scope raw_key request_hash e)) first filled calm (get-begun t h)
            (lawful.decode-encode first)))

    get-completed :
        (t t' : ℕ) (result : Response)
        → t' < t + cfg.completed_ttl
        → R.get (completed_env t result).store t' (build_key u scope raw_key)
          ≡ some (json.encode (complete_record first result t))
    unfolding completed_env
    get-completed t t' result h =
        rw redis.get-set (ground (arith, ==-refl (build_key u scope raw_key)))

    -- When no call of Redis fails, after a first request with a key that is not blank and a body
    -- hash that is not empty has begun on a free key, and its response was kept within the in-
    -- progress time to live, a request with the same key is answered until the record runs out:
    -- with that very response if its body hash is the first one, with a mismatch error otherwise;
    -- nothing changes.
    pub begin_http-complete_http :
        (other : Str) (result : Response) (t t' : ℕ)
        → t < e.now + cfg.in_progress_ttl
        → t' < t + cfg.completed_ttl
        → request_hash ≢ []
        → let e1 = (begin_http R json u cfg scope raw_key request_hash e).1 in
          let e2 = (complete_http R json u cfg scope raw_key result (at t e1)).1 in
          begin_http R json u cfg scope raw_key other (at t' e2) ≡ (
            if other == request_hash
                then ok (record {
                  decision = replay;
                  found = some (
                      complete_record
                        (new_record
                          (build_key u scope raw_key)
                          (normalize_scope u scope)
                          request_hash
                          e.now)
                        result
                        t);
                })
                else err request_hash_mismatch,
            at t' e2,
          )
    unfolding first new_record completed_env
    begin_http-complete_http other result t t' h h' hashed = rw (complete_http-begun t result h) (
        ground (
          arith,
          begin_http_held R json u v cfg scope raw_key other (at t' (completed_env t result))
              (complete_record first result t) filled calm (get-completed t t' result h')
              (lawful.decode-encode (complete_record first result t)),
        ))

    -- When no call of Redis fails and the in-progress time to live is not 0, a first request on a
    -- free key that is not blank whose handler takes longer than that time leaves no response
    -- behind: its completion changes nothing, and the next request with the key is let through.
    pub begin_http-lapsed :
        (other : Str) (result : Response) (t : ℕ)
        → 0 < cfg.in_progress_ttl
        → e.now + cfg.in_progress_ttl ≤ t
        → let e1 = at t (begin_http R json u cfg scope raw_key request_hash e).1 in
          (complete_http R json u cfg scope raw_key result e1 ≡ (ok tt, e1))
          × (lets_through (begin_http R json u cfg scope raw_key other e1).0 ≡ true)
    unfolding begun
    begin_http-lapsed other result t set h = rw begin_http-begun (
      complete_http_gone R json u v cfg scope raw_key result
          (at t (begun scope raw_key request_hash e)) filled calm (get-lapsed t set h),
      ground (
        arith,
        begin_http_free R json u v cfg scope raw_key other
            (at t (begun scope raw_key request_hash e)) filled calm (get-lapsed t set h),
      ),
    )

    released : (t : ℕ) → Env R
    unfolding begun
    released t = record e {
      now = t;
      store = R.del (begun scope raw_key request_hash e).store (build_key u scope raw_key);
    }

    get-released : (t : ℕ) → R.get (released t).store t (build_key u scope raw_key) ≡ none
    unfolding released
    get-released t = rw redis.get-del (ground (arith, ==-refl (build_key u scope raw_key)))

    -- When no call of Redis fails, after a first request has begun on a free key that is not blank
    -- and has been released, the next request with the key is let through.
    pub begin_http-release_http :
        (other : Str) (t : ℕ)
        → let e1 = (begin_http R json u cfg scope raw_key request_hash e).1 in
          let e2 = (release_http R json u cfg scope raw_key (at t e1)).1 in
          lets_through (begin_http R json u cfg scope raw_key other e2).0 ≡ true
    unfolding begun released
    begin_http-release_http other t =
        rw
          (
            begin_http-begun,
            release_http_lem R json u v cfg scope raw_key
                (at t (begun scope raw_key request_hash e)) filled calm,
          )
          (ground (
            arith,
            begin_http_free R json u v cfg scope raw_key other (released t) filled calm
                (get-released t),
          ))
