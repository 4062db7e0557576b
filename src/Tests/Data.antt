-- ===== src/Tests/Data.antt =====
-- Data of the tests: Redis in memory, and stand-ins for what the program calls.
use bookstore_golang.Base.{ℕ, Bool, true, false, Option, none, some, List, [], ◌∷◌, ◌==◌}
use bookstore_golang.Base.Text.{codes, str_eq, ascii}
use bookstore_golang.Platform.Redis.{Redis, Env}
use bookstore_golang.Platform.Redis.Memory.{memory}
use bookstore_golang.Idempotency.Record.{Record, Response}
use bookstore_golang.Idempotency.Service.{Config}
use bookstore_golang.Database.{Db, World, Context}
use bookstore_golang.Identity.Entity.{Session, SessionStatus}
use bookstore_golang.Identity.Policy.{new_register_policy, new_device_policy}
use bookstore_golang.Identity.Library.{Library}
use bookstore_golang.Identity.Auth.{AuthService}

abbrev pub keys : Redis Record
keys = memory Record

abbrev pub no_keys : Env keys
no_keys = record { store = λ k. none; now = 100; faults = [] }

abbrev pub config : Config
config = record { in_progress_ttl = 10; completed_ttl = 50 }

abbrev pub created : Response
created = record { status_code = 201; body = codes "{}"; headers = [] }

-- Redis with values of numbers and of sessions.
pub data Value : Type 0 where
  user : ℕ → Value
  session : Session → Value

abbrev user_of : Value → Option ℕ
user_of (user n) = some n
user_of (session s) = none

abbrev session_of : Value → Option Session
session_of (user n) = none
session_of (session s) = some s

abbrev pub library : Library Value
library = record {
  unicode = ascii;
  parse_address = λ s. true;
  hash_token = λ s. b'#' ∷ s;
  secure_token = λ n. some (n ∷ []);
  uuid = λ n. n ∷ [];
  generate_from_password = λ n s. some (b'!' ∷ s);
  compare_hash_and_password = λ hash s. hash == (b'!' ∷ s);
  signed_string = λ c. some (c.user_id ∷ c.jti);
  parse_with_claims = λ now s. none;
  format_int = λ n. n ∷ [];
  json_session = record { encode = session; decode = session_of };
  decimal = record { encode = user; decode = user_of };
}

abbrev pub store : Redis Value
store = memory Value

abbrev pub empty_db : Db
empty_db = record {
  users = [];
  credentials = [];
  devices = [];
  sessions = [];
  addresses = [];
  outbox_events = [];
  processed_events = [];
}

-- A world whose calls fail as the list says.
abbrev pub world : List Bool → World store
world faults = record {
  env = record { store = λ k. none; now = 100; faults = faults };
  db = empty_db;
  open_tx = none;
  ids = 1;
  entropy = 7;
}

abbrev pub context : Context
context = record { in_tx = false; request_id = []; idempotency_key = [] }

abbrev pub inside : Context
inside = record { in_tx = true; request_id = []; idempotency_key = [] }

abbrev pub service : AuthService
service = record {
  jwt = record { access_token_ttl = 5; refresh_token_ttl = 90 };
  register_policy = new_register_policy;
  device_policy = new_device_policy;
}

abbrev pub alices_session : Session
alices_session = record {
  id = 4;
  user_id = 2;
  refresh_token_hash = codes "#old";
  device_id = 3;
  session_status = SessionStatus.active;
  expired_at = 500;
  ip_address = none;
  user_agent = [];
  last_seen_at = 50;
  revoked_at = none;
  revoked_reason = none;
  created_at = 50;
  updated_at = 50;
}

abbrev pub two_sessions : Db
two_sessions = record empty_db {
  sessions =
      alices_session
      ∷ record alices_session { id = 5; device_id = 6; refresh_token_hash = codes "#two" }
      ∷ [];
}
