-- ===== src/Tests/Middleware.antt =====
-- The idempotency middleware.
use bookstore_golang.Base.{ℕ, ◌≡◌, ◌≢◌, refl, some, none, [], ◌∷◌, arith, ℕ_discrete}
use bookstore_golang.Base.Text.{Str, codes, str_eq, Str-discrete, ascii, ascii-IsUnicode, trim}
use bookstore_golang.Platform.Redis.Memory.{memory-IsRedis, plain, plain-IsCodec}
use bookstore_golang.Idempotency.Key.{normalize_scope, build_key}
use bookstore_golang.Idempotency.Record.{Record}
use bookstore_golang.Idempotency.Store.{complete_record}
use bookstore_golang.Idempotency.Service.{new_record}
use bookstore_golang.Idempotency.Service.Laws.{at}
use bookstore_golang.Idempotency.Middleware.{
  HttpRequest, HttpResponse, MiddlewareConfig, Server, answered, get_header, key_of, kept_response,
  replay_response, serve,
}
use bookstore_golang.Idempotency.Middleware.Replay.{serve-serve}
use bookstore_golang.Tests.Data.{keys, no_keys, config}

-- A request with its user.
abbrev logout_of : ℕ → HttpRequest ℕ
logout_of user = record {
  headers = (codes "Idempotency-Key", codes "k1" ∷ []) ∷ [];
  body = [];
  rest = user;
}

abbrev identity_logout : MiddlewareConfig ℕ
identity_logout = record {
  key_header = codes "Idempotency-Key";
  scope_resolver = some (λ r. codes "identity:logout");
  request_hasher = none;
}

abbrev hash_of : Str → Str
hash_of s = b'h' ∷ s

abbrev no_content : HttpResponse
no_content = record { status_code = 204; headers = []; body = [] }

-- It notes the user, and takes five units of time.
abbrev log_out : HttpRequest ℕ → ℕ → (HttpResponse × ℕ) × ℕ
log_out r n = ((no_content, 5), r.rest)

abbrev nobody : Server keys ℕ
nobody = record { env = no_keys; app = 0 }

trim-key : trim ascii (key_of identity_logout (logout_of 1)) ≡ codes "k1"
unfolding trim get_header Str-discrete ℕ_discrete
trim-key = refl

trim-key_filled : trim ascii (key_of identity_logout (logout_of 1)) ≢ []
trim-key_filled = rw trim-key (λ e. cc)

-- The second user is answered without being logged out.
serve-serve_example :
    let rec =
      new_record
        (build_key ascii (codes "identity:logout") (key_of identity_logout (logout_of 1)))
        (normalize_scope ascii (codes "identity:logout"))
        (codes "h")
        100 in
    let kept = complete_record rec (kept_response no_content) 105 in
    let first =
      serve keys (plain Record) ascii config hash_of identity_logout log_out (logout_of 1) nobody in
    let waited : Server keys ℕ = record (first.1) { env = at 120 first.1.env } in
    (first.0 ≡ answered no_content)
    × (first.1.app ≡ 1)
    × (serve keys (plain Record) ascii config hash_of identity_logout log_out (logout_of 2) waited
        ≡ (answered (replay_response kept), waited))
serve-serve_example =
    serve-serve keys (memory-IsRedis Record) (plain Record) (plain-IsCodec Record) ascii
      ascii-IsUnicode config hash_of identity_logout log_out (logout_of 1) nobody trim-key_filled
      refl refl refl (logout_of 2) 120 (λ e. cc) refl refl refl (omega arith) (omega arith)
