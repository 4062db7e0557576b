-- ===== src/Config/Sections.antt =====
-- The settings of each part: the files of internal/platform/config beside config.go.
pub mod Dsn
pub mod Ttl
use bookstore_golang.Base.{
  ℕ, ◌*◌, Bool, true, false, List, [], ◌∷◌, ◌++◌, ◌==◌, nat_eq, if◌then◌else◌, pure, ◌>>=◌,
}
use bookstore_golang.Base.Int.{ℤ, pos, wrap, duration}
use bookstore_golang.Base.Text.{Str, codes}
use bookstore_golang.Config.{Reading, must_get_env, get_env_as_int, get_env_as_bool}

-- nanoseconds
abbrev pub millisecond : ℕ
millisecond = 1000000

abbrev pub second : ℕ
second = 1000 * millisecond

abbrev pub minute : ℕ
minute = 60 * second

abbrev pub hour : ℕ
hour = 60 * minute

pub record AppConfig : Type 0 where
  pub env : Str
  pub name : Str
  pub port : Str
  pub version : Str
  pub debug : Bool
  pub graceful_shutdown_timeout : ℤ

unfoldable pub load_app_config : Reading AppConfig
load_app_config = do
  env ← must_get_env (codes "APP_ENV")
  name ← must_get_env (codes "APP_NAME")
  port ← must_get_env (codes "APP_PORT")
  version ← must_get_env (codes "APP_VERSION")
  debug ← get_env_as_bool (codes "APP_DEBUG") false
  timeout ← get_env_as_int (codes "APP_GRACEFUL_SHUTDOWN_TIMEOUT_SECONDS") (pos 10)
  pure (record {
    env = env;
    name = name;
    port = port;
    version = version;
    debug = debug;
    graceful_shutdown_timeout = duration second timeout;
  })

pub record DbConfig : Type 0 where
  pub host : Str
  pub port : Str
  pub name : Str
  pub user : Str
  pub password : Str
  pub ssl_mode : Str
  pub max_open_conns : ℤ
  pub min_idle_conns : ℤ
  pub max_conn_lifetime : ℤ
  pub max_conn_idle_time : ℤ
  pub healthcheck_period : ℤ
  pub migration_dir : Str

unfoldable pub load_db_config : Reading DbConfig
load_db_config = do
  host ← must_get_env (codes "DB_HOST")
  port ← must_get_env (codes "DB_PORT")
  name ← must_get_env (codes "DB_NAME")
  user ← must_get_env (codes "DB_USER")
  password ← must_get_env (codes "DB_PASSWORD")
  ssl_mode ← must_get_env (codes "DB_SSL_MODE")
  max_open ← get_env_as_int (codes "DB_MAX_OPEN_CONNS") (pos 25)
  min_idle ← get_env_as_int (codes "DB_MIN_IDLE_CONNS") (pos 5)
  lifetime ← get_env_as_int (codes "DB_CONN_MAX_LIFETIME_MINUTES") (pos 30)
  idle_time ← get_env_as_int (codes "DB_CONN_MAX_IDLE_TIME_MINUTES") (pos 10)
  period ← get_env_as_int (codes "DB_HEALTHCHECK_PERIOD_SECONDS") (pos 30)
  migration_dir ← must_get_env (codes "DB_MIGRATION_DIR")
  pure (record {
    host = host;
    port = port;
    name = name;
    user = user;
    password = password;
    ssl_mode = ssl_mode;
    max_open_conns = wrap 32 max_open;
    min_idle_conns = wrap 32 min_idle;
    max_conn_lifetime = duration minute lifetime;
    max_conn_idle_time = duration minute idle_time;
    healthcheck_period = duration second period;
    migration_dir = migration_dir;
  })

-- `DBConfig.DSN`
unfoldable pub dsn : DbConfig → Str
dsn c =
    codes "postgres://"
    ++ (c.user
        ++ (codes ":"
            ++ (c.password
                ++ (codes "@"
                    ++ (c.host
                        ++ (codes ":"
                            ++ (c.port
                                ++ (codes "/"
                                    ++ (c.name ++ (codes "?sslmode=" ++ c.ssl_mode))))))))))

pub record RedisConfig : Type 0 where
  pub addr : Str
  pub password : Str
  pub db : ℤ
  pub pool_size : ℤ
  pub min_idle_conns : ℤ
  pub max_retries : ℤ
  pub read_timeout : ℤ
  pub write_timeout : ℤ
  pub idle_timeout : ℤ

unfoldable pub load_redis_config : Reading RedisConfig
load_redis_config = do
  host ← must_get_env (codes "REDIS_HOST")
  port ← must_get_env (codes "REDIS_PORT")
  password ← must_get_env (codes "REDIS_PASSWORD")
  db ← get_env_as_int (codes "REDIS_DB") (pos 0)
  max_retries ← get_env_as_int (codes "REDIS_MAX_RETRIES") (pos 3)
  pool_size ← get_env_as_int (codes "REDIS_POOL_SIZE") (pos 10)
  min_idle ← get_env_as_int (codes "REDIS_MIN_IDLE_CONNS") (pos 5)
  read ← get_env_as_int (codes "REDIS_READ_TIMEOUT_SECONDS") (pos 5)
  write ← get_env_as_int (codes "REDIS_WRITE_TIMEOUT_SECONDS") (pos 5)
  idle ← get_env_as_int (codes "REDIS_DIAL_TIMEOUT_SECONDS") (pos 5)
  pure (record {
    addr = host ++ (codes ":" ++ port);
    password = password;
    db = db;
    pool_size = pool_size;
    min_idle_conns = min_idle;
    max_retries = max_retries;
    read_timeout = duration second read;
    write_timeout = duration second write;
    idle_timeout = duration second idle;
  })

pub record JwtConfig : Type 0 where
  pub secret : Str
  pub access_token_ttl : ℤ
  pub refresh_token_ttl : ℤ
  pub issuer : Str
  pub bcrypt_cost : ℤ

unfoldable pub load_jwt_config : Reading JwtConfig
load_jwt_config = do
  secret ← must_get_env (codes "JWT_SECRET")
  access ← get_env_as_int (codes "JWT_ACCESS_TOKEN_TTL_MINUTES") (pos 24)
  refresh ← get_env_as_int (codes "JWT_REFRESH_TOKEN_TTL_DAYS") (pos 30)
  issuer ← must_get_env (codes "JWT_ISSUER")
  bcrypt_cost ← get_env_as_int (codes "BCRYPT_COST") (pos 12)
  pure (record {
    secret = secret;
    access_token_ttl = duration hour access;
    refresh_token_ttl = duration 24 (duration hour refresh);
    issuer = issuer;
    bcrypt_cost = bcrypt_cost;
  })

pub record KafkaConfig : Type 0 where
  pub brokers : List Str
  pub consumer_group_id : Str
  pub client_id : Str
  pub max_retry : ℤ
  pub retry_backoff : ℤ
  pub producer_timeout : ℤ
  pub consumer_timeout : ℤ
  pub topic_prefix : Str

abbrev first_part : ℕ → List Str → List Str
first_part c [] = (c ∷ []) ∷ []
first_part c (part ∷ parts) = (c ∷ part) ∷ parts

-- `strings.Split(s, sep)` for a separator of one sign
unfoldable pub split : ℕ → Str → List Str
split sep [] = [] ∷ []
split sep (c ∷ s) = let rest = split sep s in if c == sep then [] ∷ rest else first_part c rest

unfoldable pub load_kafka_config : Reading KafkaConfig
unfolding split
load_kafka_config = do
  brokers ← must_get_env (codes "KAFKA_BROKERS")
  consumer_group_id ← must_get_env (codes "KAFKA_CONSUMER_GROUP_ID")
  client_id ← must_get_env (codes "KAFKA_CLIENT_ID")
  max_retry ← get_env_as_int (codes "KAFKA_MAX_RETRY") (pos 3)
  backoff ← get_env_as_int (codes "KAFKA_RETRY_BACKOFF_MS") (pos 500)
  producer ← get_env_as_int (codes "KAFKA_PRODUCER_TIMEOUT_MS") (pos 5000)
  consumer ← get_env_as_int (codes "KAFKA_CONSUMER_TIMEOUT_MS") (pos 10000)
  topic_prefix ← must_get_env (codes "KAFKA_TOPIC_PREFIX")
  pure (record {
    brokers = split b',' brokers;
    consumer_group_id = consumer_group_id;
    client_id = client_id;
    max_retry = max_retry;
    retry_backoff = duration millisecond backoff;
    producer_timeout = duration millisecond producer;
    consumer_timeout = duration millisecond consumer;
    topic_prefix = topic_prefix;
  })
