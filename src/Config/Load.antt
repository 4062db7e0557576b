-- ===== src/Config/Load.antt =====
-- `MustLoad` of internal/platform/config/config.go.
pub mod Keys
pub mod Requires
pub mod Required
use bookstore_golang.Base.{
  Bool, true, false, ◌||◌, ◌==◌, [], ◌∷◌, Action, Result, ok, err, pure, ◌>>=◌, ◌>>◌, if◌then◌else◌,
}
use bookstore_golang.Base.Text.{Str, codes, str_eq}
use bookstore_golang.Config.{
  Environment, Reading, Stop, missing, panicked, must_get_env, get_env_as_int, get_env_as_bool,
}
use bookstore_golang.Config.Sections.{
  AppConfig, DbConfig, RedisConfig, KafkaConfig, JwtConfig, load_app_config, load_db_config,
  load_redis_config, load_kafka_config, load_jwt_config,
}
use bookstore_golang.Config.Others.{
  MinioConfig, EmailConfig, VnPayConfig, AsynqConfig, RateLimitConfig, CorsConfig, LoggerConfig,
  load_minio_config, load_email_config, load_vn_pay_config, load_asynq_config,
  load_rate_limit_config, load_cors_config, load_logger_config,
}

pub record Config : Type 0 where
  pub app : AppConfig
  pub db : DbConfig
  pub redis : RedisConfig
  pub kafka : KafkaConfig
  pub minio : MinioConfig
  pub jwt : JwtConfig
  pub email : EmailConfig
  pub vn_pay : VnPayConfig
  pub asynq_config : AsynqConfig
  pub rate_limit : RateLimitConfig
  pub cors : CorsConfig
  pub logger : LoggerConfig

unfoldable pub validate : Config → Reading (Unit {0})
validate c env =
    if c.jwt.secret == []
    then (err (panicked (codes "missing JWT secret")), env)
    else if c.db.host == [] || (c.db.name == [] || c.db.user == [])
    then (err (panicked (codes "missing database config")), env)
    else (ok tt, env)

unfoldable pub must_load : Reading Config
unfolding validate load_cors_config
must_load = do
  db ← load_db_config
  app ← load_app_config
  redis ← load_redis_config
  kafka ← load_kafka_config
  minio ← load_minio_config
  jwt ← load_jwt_config
  email ← load_email_config
  vn_pay ← load_vn_pay_config
  asynq_config ← load_asynq_config
  rate_limit ← load_rate_limit_config
  logger ← load_logger_config
  let cfg : Config = record {
    app = app;
    db = db;
    redis = redis;
    kafka = kafka;
    minio = minio;
    jwt = jwt;
    email = email;
    vn_pay = vn_pay;
    asynq_config = asynq_config;
    rate_limit = rate_limit;
    cors = load_cors_config;
    logger = logger;
  }
  validate cfg
  pure cfg
