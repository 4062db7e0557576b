-- ===== src/Config/Others.antt =====
-- The settings of the parts that this repository does not hold yet, and of logs, rate limits and
-- origins.
use bookstore_golang.Base.{◌*◌, Bool, true, false, List, [], ◌∷◌, ◌++◌, pure, ◌>>=◌}
use bookstore_golang.Base.Int.{ℤ, pos, duration}
use bookstore_golang.Base.Text.{Str, codes}
use bookstore_golang.Config.{Reading, must_get_env, get_env_as_int, get_env_as_bool}
use bookstore_golang.Config.Sections.{minute, hour}

pub record MinioConfig : Type 0 where
  pub endpoint : Str
  pub access_key : Str
  pub secret_key : Str
  pub use_ssl : Bool
  pub presigned_url_expiry : ℤ
  pub bucket_avatars : Str
  pub bucket_books : Str

unfoldable pub load_minio_config : Reading MinioConfig
load_minio_config = do
  endpoint ← must_get_env (codes "MINIO_ENDPOINT")
  access_key ← must_get_env (codes "MINIO_ACCESS_KEY")
  secret_key ← must_get_env (codes "MINIO_SECRET_KEY")
  use_ssl ← get_env_as_bool (codes "MINIO_USE_SSL") false
  expiry ← get_env_as_int (codes "MINIO_PRESIGNED_URL_EXPIRY_MINUTES") (pos 60)
  bucket_avatars ← must_get_env (codes "MINIO_BUCKET_AVATARS")
  bucket_books ← must_get_env (codes "MINIO_BUCKET_BOOKS")
  pure (record {
    endpoint = endpoint;
    access_key = access_key;
    secret_key = secret_key;
    use_ssl = use_ssl;
    presigned_url_expiry = duration minute expiry;
    bucket_avatars = bucket_avatars;
    bucket_books = bucket_books;
  })

pub record EmailConfig : Type 0 where
  pub host : Str
  pub port : ℤ
  pub username : Str
  pub password : Str
  pub from_email : Str
  pub from_name : Str
  pub use_tls : Bool

unfoldable pub load_email_config : Reading EmailConfig
load_email_config = do
  host ← must_get_env (codes "SMTP_HOST")
  port ← get_env_as_int (codes "SMTP_PORT") (pos 1025)
  username ← must_get_env (codes "SMTP_USER")
  password ← must_get_env (codes "SMTP_PASSWORD")
  from_email ← must_get_env (codes "SMTP_FROM_EMAIL")
  from_name ← must_get_env (codes "SMTP_FROM_NAME")
  use_tls ← get_env_as_bool (codes "SMTP_TLS") false
  pure (record {
    host = host;
    port = port;
    username = username;
    password = password;
    from_email = from_email;
    from_name = from_name;
    use_tls = use_tls;
  })

pub record VnPayConfig : Type 0 where
  pub tmn_code : Str
  pub hash_secret : Str
  pub payment_url : Str
  pub return_url : Str
  pub notify_url : Str

unfoldable pub load_vn_pay_config : Reading VnPayConfig
load_vn_pay_config = do
  tmn_code ← must_get_env (codes "VNPAY_TMN_CODE")
  hash_secret ← must_get_env (codes "VNPAY_HASH_SECRET")
  payment_url ← must_get_env (codes "VNPAY_PAYMENT_URL")
  return_url ← must_get_env (codes "VNPAY_RETURN_URL")
  notify_url ← must_get_env (codes "VNPAY_NOTIFY_URL")
  pure (record {
    tmn_code = tmn_code;
    hash_secret = hash_secret;
    payment_url = payment_url;
    return_url = return_url;
    notify_url = notify_url;
  })

pub record AsynqConfig : Type 0 where
  pub redis_addr : Str
  pub redis_db : ℤ
  pub redis_pass : Str
  pub concurrency : ℤ
  pub queues : List (Str × ℤ)
  pub asynq_monitor_port : ℤ

unfoldable pub load_asynq_config : Reading AsynqConfig
load_asynq_config = do
  host ← must_get_env (codes "REDIS_HOST")
  port ← must_get_env (codes "REDIS_PORT")
  redis_db ← get_env_as_int (codes "REDIS_DB") (pos 1)
  redis_pass ← must_get_env (codes "REDIS_PASSWORD")
  concurrency ← get_env_as_int (codes "ASYNQ_CONCURRENCY") (pos 10)
  default ← get_env_as_int (codes "ASYNQ_QUEUES_DEFAULT") (pos 3)
  critical ← get_env_as_int (codes "ASYNQ_QUEUES_CRITICAL") (pos 6)
  monitor_port ← get_env_as_int (codes "ASYNQ_MONITOR_PORT") (pos 8081)
  pure (record {
    redis_addr = host ++ (codes ":" ++ port);
    redis_db = redis_db;
    redis_pass = redis_pass;
    concurrency = concurrency;
    queues = (codes "default", default) ∷ (codes "critical", critical) ∷ [];
    asynq_monitor_port = monitor_port;
  })

pub record RateLimitConfig : Type 0 where
  pub enabled : Bool
  pub request_per_minute : ℤ
  pub burst_size : ℤ

unfoldable pub load_rate_limit_config : Reading RateLimitConfig
load_rate_limit_config = do
  enabled ← get_env_as_bool (codes "RATE_LIMIT_ENABLED") true
  request_per_minute ← get_env_as_int (codes "RATE_LIMIT_REQUESTS_PER_MINUTE") (pos 100)
  burst_size ← get_env_as_int (codes "RATE_LIMIT_BURST_SIZE") (pos 20)
  pure (record {
    enabled = enabled;
    request_per_minute = request_per_minute;
    burst_size = burst_size;
  })

pub record CorsConfig : Type 0 where
  pub allowed_origins : List Str
  pub allowed_methods : List Str
  pub allowed_headers : List Str
  pub allow_credentials : Bool
  pub max_age : ℤ

-- The largest age is a number of nanoseconds.
unfoldable pub load_cors_config : CorsConfig
load_cors_config = record {
  allowed_origins = codes "http://localhost:3000" ∷ codes "http://localhost:8080" ∷ [];
  allowed_methods =
      codes "GET" ∷ codes "POST" ∷ codes "PUT" ∷ codes "DELETE" ∷ codes "OPTIONS" ∷ [];
  allowed_headers =
      codes "Content-Type"
      ∷ codes "Authorization"
      ∷ codes "X-Request-ID"
      ∷ codes "X-Idempotency-Key"
      ∷ [];
  allow_credentials = true;
  max_age = pos (24 * hour);
}

pub record LoggerConfig : Type 0 where
  pub level : Str
  pub format : Str
  pub output : Str

unfoldable pub load_logger_config : Reading LoggerConfig
load_logger_config = do
  level ← must_get_env (codes "LOG_LEVEL")
  format ← must_get_env (codes "LOG_FORMAT")
  output ← must_get_env (codes "LOG_OUTPUT")
  pure (record { level = level; format = format; output = output })
