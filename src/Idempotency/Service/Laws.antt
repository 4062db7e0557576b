-- ===== src/Idempotency/Service/Laws.antt =====
-- What the service promises: a key is let through once, until its record is released or has run out,
-- and a completed request is answered with its response.
use bookstore_golang.Base.{
  ℕ, ◌≡◌, ◌≢◌, Bool, true, false, not, ◌&&◌, none, some, [], Result, ok, err, bind_result, ◌==◌,
  if◌then◌else◌, arith,
}
use bookstore_golang.Base.Text.{Str, str_eq, Unicode, IsUnicode, trim}
use bookstore_golang.Errors.{Error, missing_key, request_hash_mismatch}
use bookstore_golang.Platform.Redis.{Redis, Codec, Env}
use bookstore_golang.Idempotency.Key.{normalize_scope, build_key}
use bookstore_golang.Idempotency.Key.Normal.{build_key-normalize_scope}
use bookstore_golang.Idempotency.Store.{reserve, complete_record}
use bookstore_golang.Idempotency.Record.{Record, acquired, existing, BeginResult, proceed, Response}
use bookstore_golang.Idempotency.Service.{
  Config, new_record, begin_http, complete_http, release_http, begin_decided, begin_status,
}

-- The same key space at another time.
abbrev pub at : {V : Type 0} {R : Redis V} → ℕ → Env R → Env R
at t e = record e { now = t }

-- Whether the request goes on to its handler.
abbrev pub lets_through : Result Error BeginResult → Bool
lets_through (ok b) = elim b.decision [ proceed ↦ true | _ ↦ false ]
lets_through (err e) = false

module _ {V : Type 0} (R : Redis V) (json : Codec V Record) where
  reserve_free :
      (rec : Record) (ttl : ℕ) (e : Env R)
      → e.faults ≡ []
      → R.get e.store e.now rec.key ≡ none
      → reserve R json rec ttl e ≡ (
        ok (acquired, some rec),
        record e { store = R.set e.store e.now rec.key (json.encode rec) ttl },
      )
  unfolding reserve
  reserve_free rec ttl e calm free = ground arith

  reserve_held :
      (rec r : Record) (ttl : ℕ) (e : Env R) {raw : V}
      → e.faults ≡ []
      → R.get e.store e.now rec.key ≡ some raw
      → json.decode raw ≡ some r
      → reserve R json rec ttl e ≡ (ok (existing, some r), e)
  unfolding reserve
  reserve_held rec r ttl e calm held read = ground arith

module _ {V : Type 0} (R : Redis V) (json : Codec V Record) (u : Unicode) (v : IsUnicode u)
    (cfg : Config) where
  -- `BeginHTTP` as one call of the store, at the key that the other three operations use.
  begin_http_lem :
      (scope raw_key request_hash : Str) (e : Env R)
      → trim u raw_key ≢ []
      → begin_http R json u cfg scope raw_key request_hash e ≡ (
          let key = build_key u scope raw_key in
          let rec = new_record key (normalize_scope u scope) request_hash e.now in
          bind_result
            (reserve R json rec cfg.in_progress_ttl e)
            (λ d. begin_decided d rec request_hash))
  unfolding begin_http
  begin_http_lem scope raw_key request_hash e filled =
      ground (arith, build_key-normalize_scope u v scope raw_key)

  -- A request whose key is blank is refused, and no call is made.
  pub begin_http_blank :
      (scope raw_key request_hash : Str) (e : Env R)
      → trim u raw_key ≡ []
      → begin_http R json u cfg scope raw_key request_hash e ≡ (err missing_key, e)
  unfolding begin_http
  begin_http_blank scope raw_key request_hash e blank = ground arith

  -- A free key: the request goes ahead, and holds the key for the in-progress time to live.
  pub begin_http_free :
      (scope raw_key request_hash : Str) (e : Env R)
      → trim u raw_key ≢ []
      → e.faults ≡ []
      → R.get e.store e.now (build_key u scope raw_key) ≡ none
      → begin_http R json u cfg scope raw_key request_hash e ≡ (
          let key = build_key u scope raw_key in
          let rec = new_record key (normalize_scope u scope) request_hash e.now in
          (
            ok (record { decision = proceed; found = some rec }),
            record e { store = R.set e.store e.now key (json.encode rec) cfg.in_progress_ttl },
          ))
  unfolding new_record
  begin_http_free scope raw_key request_hash e filled calm free = rw (
    begin_http_lem scope raw_key request_hash e filled,
    reserve_free R json
        (new_record (build_key u scope raw_key) (normalize_scope u scope) request_hash e.now)
        cfg.in_progress_ttl e calm free,
  )

  -- A held key: the answer is made of the record that holds it, and nothing changes.
  pub begin_http_held :
      (scope raw_key request_hash : Str) (e : Env R) (r : Record) {raw : V}
      → trim u raw_key ≢ []
      → e.faults ≡ []
      → R.get e.store e.now (build_key u scope raw_key) ≡ some raw
      → json.decode raw ≡ some r
      → begin_http R json u cfg scope raw_key request_hash e ≡ (
          if not (r.request_hash == []) && not (request_hash == r.request_hash)
          then (err request_hash_mismatch, e)
          else begin_status r.status r e)
  unfolding new_record
  begin_http_held scope raw_key request_hash e r filled calm held read =
      rw
        (
          begin_http_lem scope raw_key request_hash e filled,
          reserve_held R json
              (new_record (build_key u scope raw_key) (normalize_scope u scope) request_hash e.now)
              r cfg.in_progress_ttl e calm held read,
        )
        (ground arith)

  -- A request whose key is held is not let through, whichever calls of Redis fail, and the key
  -- space stays as it is.
  begin_http_excludes :
      (scope raw_key request_hash : Str) (e : Env R) {raw : V}
      → R.get e.store e.now (build_key u scope raw_key) ≡ some raw
      → ((begin_http R json u cfg scope raw_key request_hash e).1.store ≡ e.store)
        × (lets_through (begin_http R json u cfg scope raw_key request_hash e).0 ≡ false)
  unfolding begin_http
  begin_http_excludes scope raw_key request_hash e held =
      ground (arith, build_key-normalize_scope u v scope raw_key)

  pub complete_http_held :
      (scope raw_key : Str) (result : Response) (e : Env R) (r : Record) {raw : V}
      → trim u raw_key ≢ []
      → e.faults ≡ []
      → R.get e.store e.now (build_key u scope raw_key) ≡ some raw
      → json.decode raw ≡ some r
      → complete_http R json u cfg scope raw_key result e ≡ (
        ok tt,
        record e {
          store =
              R.set e.store e.now
                (build_key u scope raw_key)
                (json.encode (complete_record r result e.now))
                cfg.completed_ttl;
        },
      )
  unfolding complete_http
  complete_http_held scope raw_key result e r filled calm held read = ground arith

  -- A record that has run out is not brought back.
  pub complete_http_gone :
      (scope raw_key : Str) (result : Response) (e : Env R)
      → trim u raw_key ≢ []
      → e.faults ≡ []
      → R.get e.store e.now (build_key u scope raw_key) ≡ none
      → complete_http R json u cfg scope raw_key result e ≡ (ok tt, e)
  unfolding complete_http
  complete_http_gone scope raw_key result e filled calm gone = ground arith

  pub release_http_lem :
      (scope raw_key : Str) (e : Env R)
      → trim u raw_key ≢ []
      → e.faults ≡ []
      → release_http R json u cfg scope raw_key e
        ≡ (ok tt, record e { store = R.del e.store (build_key u scope raw_key) })
  unfolding release_http
  release_http_lem scope raw_key e filled calm = ground arith
