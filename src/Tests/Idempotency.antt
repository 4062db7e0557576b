-- ===== src/Tests/Idempotency.antt =====
-- Keys and the service of the idempotency records.
use bookstore_golang.Idempotency.Events.{try_process_event}
use bookstore_golang.Idempotency.Events.Once.{try_process_event_once}
use bookstore_golang.Base.{
  suc, any, ◌≡◌, ◌≢◌, ◌↔◌, refl, true, false, some, [], ◌∷◌, ok, err, arith, ℕ_discrete,
}
use bookstore_golang.Base.Text.{Str, codes, str_eq, Str-discrete, ascii, ascii-IsUnicode, trim}
use bookstore_golang.Errors.{request_in_progress}
use bookstore_golang.Platform.Redis.{Env}
use bookstore_golang.Platform.Redis.Memory.{memory-IsRedis, plain, plain-IsCodec}
use bookstore_golang.Idempotency.Key.{normalize_scope, normalize_key, build_key}
use bookstore_golang.Idempotency.Key.Normal.{build_key-eq_iff, normalize_scope_idem}
use bookstore_golang.Idempotency.Record.{Record, in_progress, replay}
use bookstore_golang.Idempotency.Store.{complete_record}
use bookstore_golang.Idempotency.Service.{begin_http, complete_http, new_record}
use bookstore_golang.Idempotency.Service.Laws.{at, lets_through}
use bookstore_golang.Idempotency.Service.Once.{
  begin_http-begin_http, begin_http-complete_http, begin_http-lapsed,
}
use bookstore_golang.Tests.Data.{world, keys, no_keys, config, created}

abbrev scope : Str
scope = codes "POST:/orders"

abbrev raw_key : Str
raw_key = codes " k1"

abbrev body : Str
body = codes "h1"

abbrev first : Env keys
first = (begin_http keys (plain Record) ascii config scope raw_key body no_keys).1

abbrev done : Env keys
done = (complete_http keys (plain Record) ascii config scope raw_key created (at 105 first)).1

trim-raw_key_value : trim ascii raw_key ≡ codes "k1"
unfolding trim ℕ_discrete
trim-raw_key_value = refl

trim-raw_key : trim ascii raw_key ≢ []
trim-raw_key = rw trim-raw_key_value (λ e. cc)

begin_http-begin_http_example :
    begin_http keys (plain Record) ascii config scope raw_key body (at 105 first)
    ≡ (err request_in_progress, at 105 first)
unfolding Str-discrete ℕ_discrete
begin_http-begin_http_example =
    begin_http-begin_http keys (memory-IsRedis Record) (plain Record) (plain-IsCodec Record) ascii
      ascii-IsUnicode config scope raw_key body no_keys trim-raw_key refl refl body 105
      (omega arith) (λ e. cc)

begin_http-complete_http_example :
    begin_http keys (plain Record) ascii config scope raw_key body (at 120 done) ≡ (
      ok (record {
        decision = replay;
        found = some (
            complete_record
              (new_record (build_key ascii scope raw_key) (normalize_scope ascii scope) body 100)
              created
              105);
      }),
      at 120 done,
    )
unfolding Str-discrete ℕ_discrete
begin_http-complete_http_example =
    begin_http-complete_http keys (memory-IsRedis Record) (plain Record) (plain-IsCodec Record)
      ascii ascii-IsUnicode config scope raw_key body no_keys trim-raw_key refl refl body created
      105 120 (omega arith) (omega arith) (λ e. cc)

begin_http-lapsed_example :
    (complete_http keys (plain Record) ascii config scope raw_key created (at 110 first)
      ≡ (ok tt, at 110 first))
    × (lets_through
          (begin_http keys (plain Record) ascii config scope raw_key body (at 110 first)).0
        ≡ true)
begin_http-lapsed_example =
    begin_http-lapsed keys (memory-IsRedis Record) (plain Record) (plain-IsCodec Record) ascii
      ascii-IsUnicode config scope raw_key body no_keys trim-raw_key refl refl body created 110
      (omega arith) (omega arith)

abbrev held_record : Record
held_record = record {
  key = codes "k";
  scope = codes "s";
  status = in_progress;
  request_hash = [];
  response_code = 0;
  response_body = [];
  headers = [];
  started_at = 100;
  completed_at = 0;
}

-- The first call of Redis succeeds, the second one fails.
abbrev held : Env keys
held = record { store = λ k. some (held_record, some 200); now = 100; faults = false ∷ true ∷ [] }

build_key-eq_iff_example :
    (build_key ascii (codes "A b") (codes "k") ≡ build_key ascii (codes "a/b") (codes " k")) ↔ (
      (normalize_scope ascii (codes "A b") ≡ normalize_scope ascii (codes "a/b"))
      × (normalize_key ascii (codes "k") ≡ normalize_key ascii (codes " k")))
build_key-eq_iff_example =
    build_key-eq_iff ascii ascii-IsUnicode (codes "A b") (codes "a/b") (codes "k") (codes " k")

normalize_scope_idem_example :
    normalize_scope ascii (normalize_scope ascii (codes " A:b"))
    ≡ normalize_scope ascii (codes " A:b")
normalize_scope_idem_example = normalize_scope_idem ascii ascii-IsUnicode (codes " A:b")

trim-consumer : trim ascii (codes "mail") ≢ []
unfolding trim ℕ_discrete
trim-consumer = λ e. cc

trim-event : trim ascii (codes "e1") ≢ []
unfolding trim ℕ_discrete
trim-event = λ e. cc

try_process_event_once_example :
    let r = try_process_event ascii (codes "mail") (codes "e1") (some (codes "{}")) (world []) in
    (r.0 ≡ ok true)
    × (try_process_event ascii (codes "mail") (codes "e1") (some (codes "{}")) r.1
        ≡ (ok false, record (r.1) { ids = suc r.1.ids }))
unfolding any
try_process_event_once_example =
    try_process_event_once ascii (codes "mail") (codes "e1") trim-consumer trim-event (codes "{}")
      (codes "{}") (world []) refl
