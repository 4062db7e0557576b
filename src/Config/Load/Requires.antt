-- ===== src/Config/Load/Requires.antt =====
-- What each section of the settings requires of the environment.
use bookstore_golang.Base.{
  ◌≡◌, refl, Bool, false, Option, none, some, List, [], ◌∷◌, ◌++◌, Result, ok, err, ◌==◌, pure,
  ◌>>=◌, bind_result, find, Bool-cases, inl, inr,
}
use bookstore_golang.Base.Int.{ℤ}
use bookstore_golang.Base.Text.{Str, str_eq}
use bookstore_golang.Config.{
  Environment, Reading, Stop, missing, must_get_env, get_env_as_int, get_env_as_bool,
}
use bookstore_golang.Config.Sections.{
  AppConfig, DbConfig, RedisConfig, KafkaConfig, JwtConfig, load_app_config, load_db_config,
  load_redis_config, load_kafka_config, load_jwt_config,
}
use bookstore_golang.Config.Others.{
  MinioConfig, EmailConfig, VnPayConfig, AsynqConfig, RateLimitConfig, LoggerConfig,
  load_minio_config, load_email_config, load_vn_pay_config, load_asynq_config,
  load_rate_limit_config, load_logger_config,
}
use bookstore_golang.Config.Load.Keys.{
  db_keys, app_keys, redis_keys, kafka_keys, minio_keys, jwt_keys, email_keys, vn_pay_keys,
  asynq_keys, rate_limit_keys, logger_keys,
}

-- What `validate` asks for.
abbrev pub HasSecret : JwtConfig → Type 0
HasSecret c = (c.secret == []) ≡ false

abbrev pub HasDatabase : DbConfig → Type 0
HasDatabase c = ((c.host == []) ≡ false) × ((c.name == []) ≡ false) × ((c.user == []) ≡ false)

module _ (env : Environment) where
  -- The first of the names that is not set.
  abbrev pub first_missing : List Str → Option Str
  first_missing = find (λ k. env k == [])

  abbrev pub Outcome :
      {A : Type 0} → (A → Type 0) → Option Str → Result Stop A × Environment → Type 0
  Outcome {A} Q none r = (a : A) × (r ≡ (ok a, env)) × Q a
  Outcome Q (some k) r = r ≡ (err (missing k), env)

  -- A reading that stops at the first of its names that is not set, and gives such a value otherwise.
  pub record Requires {A : Type 0} (Q : A → Type 0) (keys : List Str) (m : Reading A) : Type 0 where
    pub outcome : Outcome Q (first_missing keys) (m env)

  pub done : {A : Type 0} (Q : A → Type 0) (a : A) → Q a → Requires Q [] (pure a)
  unfolding find
  done Q a q = record { outcome = (a, refl, q) }

  pub needs :
      {A : Type 0} (Q : A → Type 0) (k : Str) (keys : List Str) (f : Str → Reading A)
      → ((v : Str) → (v == []) ≡ false → Requires Q keys (f v))
      → Requires Q (k ∷ keys) (must_get_env k >>= f)
  unfolding must_get_env find
  needs Q k keys f rest = record {
    outcome = elim (Bool-cases (env k == [])) [
      | inl gone ↦ rw gone refl
      | inr there ↦ rw there ((rest (env k) there).outcome)
    ];
  }

  pub optional_int :
      {A : Type 0} (Q : A → Type 0) (k : Str) (def : ℤ) (keys : List Str) (f : ℤ → Reading A)
      → ((v : ℤ) → Requires Q keys (f v))
      → Requires Q keys (get_env_as_int k def >>= f)
  unfolding get_env_as_int
  optional_int Q k def keys f rest = record { outcome = (rest _).outcome }

  pub optional_bool :
      {A : Type 0} (Q : A → Type 0) (k : Str) (def : Bool) (keys : List Str) (f : Bool → Reading A)
      → ((v : Bool) → Requires Q keys (f v))
      → Requires Q keys (get_env_as_bool k def >>= f)
  unfolding get_env_as_bool
  optional_bool Q k def keys f rest = record { outcome = (rest _).outcome }

  pub then_outcome :
      {A B : Type 0} (P : A → Type 0) (Q : B → Type 0) (ks ls : List Str)
      (r : Result Stop A × Environment) (f : A → Reading B)
      → Outcome P (first_missing ks) r
      → ((a : A) → P a → Outcome Q (first_missing ls) (f a env))
      → Outcome Q (first_missing (ks ++ ls)) (bind_result r f)
  unfolding find
  then_outcome P Q [] ls r f (a, e, p) rest = rw e (rest a p)
  then_outcome P Q (k ∷ ks) ls r f first rest = elim (Bool-cases (env k == [])) [
    | inl gone ↦
        let stopped : r ≡ (err (missing k), env) = rw gone at first in rw stopped (rw gone refl)
    | inr there ↦ rw there (then_outcome P Q ks ls r f (rw there at first) rest)
  ]

  -- One reading after another.
  pub chain :
      {A B : Type 0} (P : A → Type 0) (Q : B → Type 0) (ks ls : List Str) (m : Reading A)
      (f : A → Reading B)
      → Requires P ks m
      → ((a : A) → P a → Requires Q ls (f a))
      → Requires Q (ks ++ ls) (m >>= f)
  chain P Q ks ls m f first rest = record {
    outcome = then_outcome P Q ks ls (m env) f first.outcome (λ a p. (rest a p).outcome);
  }

  pub load_db_config-Requires : Requires HasDatabase db_keys load_db_config
  unfolding load_db_config
  load_db_config-Requires =
      let Q : DbConfig → Type 0 = HasDatabase in
      needs Q _ _ _ λ host has_host. needs Q _ _ _ λ port has_port. needs Q _ _ _ λ name has_name.
        needs Q _ _ _ λ user has_user. needs Q _ _ _ λ password has_password.
          needs Q _ _ _ λ ssl_mode has_ssl_mode. optional_int Q _ _ _ _ λ max_open.
            optional_int Q _ _ _ _ λ min_idle. optional_int Q _ _ _ _ λ lifetime.
              optional_int Q _ _ _ _ λ idle_time. optional_int Q _ _ _ _ λ period.
                needs Q _ _ _
                  λ migration_dir has_migration_dir. done Q _ (has_host, has_name, has_user)

  pub load_app_config-Requires : Requires (λ _. Unit {0}) app_keys load_app_config
  unfolding load_app_config
  load_app_config-Requires =
      let Q : AppConfig → Type 0 = (λ _. Unit {0}) in
      needs Q _ _ _ λ env has_env. needs Q _ _ _ λ name has_name. needs Q _ _ _ λ port has_port.
        needs Q _ _ _ λ version has_version.
          optional_bool Q _ _ _ _ λ debug. optional_int Q _ _ _ _ λ timeout. done Q _ tt

  pub load_redis_config-Requires : Requires (λ _. Unit {0}) redis_keys load_redis_config
  unfolding load_redis_config
  load_redis_config-Requires =
      let Q : RedisConfig → Type 0 = (λ _. Unit {0}) in
      needs Q _ _ _ λ host has_host. needs Q _ _ _ λ port has_port.
        needs Q _ _ _ λ password has_password. optional_int Q _ _ _ _ λ db.
          optional_int Q _ _ _ _ λ max_retries. optional_int Q _ _ _ _ λ pool_size.
            optional_int Q _ _ _ _ λ min_idle.
              optional_int Q _ _ _ _
                λ read. optional_int Q _ _ _ _ λ write. optional_int Q _ _ _ _ λ idle. done Q _ tt

  pub load_kafka_config-Requires : Requires (λ _. Unit {0}) kafka_keys load_kafka_config
  unfolding load_kafka_config
  load_kafka_config-Requires =
      let Q : KafkaConfig → Type 0 = (λ _. Unit {0}) in
      needs Q _ _ _ λ brokers has_brokers. needs Q _ _ _ λ consumer_group_id has_consumer_group_id.
        needs Q _ _ _ λ client_id has_client_id. optional_int Q _ _ _ _ λ max_retry.
          optional_int Q _ _ _ _ λ backoff. optional_int Q _ _ _ _ λ producer.
            optional_int Q _ _ _ _
              λ consumer. needs Q _ _ _ λ topic_prefix has_topic_prefix. done Q _ tt

  pub load_minio_config-Requires : Requires (λ _. Unit {0}) minio_keys load_minio_config
  unfolding load_minio_config
  load_minio_config-Requires =
      let Q : MinioConfig → Type 0 = (λ _. Unit {0}) in
      needs Q _ _ _ λ endpoint has_endpoint. needs Q _ _ _ λ access_key has_access_key.
        needs Q _ _ _ λ secret_key has_secret_key. optional_bool Q _ _ _ _ λ use_ssl.
          optional_int Q _ _ _ _ λ expiry. needs Q _ _ _ λ bucket_avatars has_bucket_avatars.
            needs Q _ _ _ λ bucket_books has_bucket_books. done Q _ tt

  pub load_jwt_config-Requires : Requires HasSecret jwt_keys load_jwt_config
  unfolding load_jwt_config
  load_jwt_config-Requires =
      let Q : JwtConfig → Type 0 = HasSecret in
      needs Q _ _ _ λ secret has_secret. optional_int Q _ _ _ _ λ access.
        optional_int Q _ _ _ _ λ refresh.
          needs Q _ _ _
            λ issuer has_issuer. optional_int Q _ _ _ _ λ bcrypt_cost. done Q _ has_secret

  pub load_email_config-Requires : Requires (λ _. Unit {0}) email_keys load_email_config
  unfolding load_email_config
  load_email_config-Requires =
      let Q : EmailConfig → Type 0 = (λ _. Unit {0}) in
      needs Q _ _ _ λ host has_host. optional_int Q _ _ _ _ λ port.
        needs Q _ _ _ λ username has_username. needs Q _ _ _ λ password has_password.
          needs Q _ _ _ λ from_email has_from_email.
            needs Q _ _ _ λ from_name has_from_name. optional_bool Q _ _ _ _ λ use_tls. done Q _ tt

  pub load_vn_pay_config-Requires : Requires (λ _. Unit {0}) vn_pay_keys load_vn_pay_config
  unfolding load_vn_pay_config
  load_vn_pay_config-Requires =
      let Q : VnPayConfig → Type 0 = (λ _. Unit {0}) in
      needs Q _ _ _ λ tmn_code has_tmn_code. needs Q _ _ _ λ hash_secret has_hash_secret.
        needs Q _ _ _ λ payment_url has_payment_url.
          needs Q _ _ _
            λ return_url has_return_url. needs Q _ _ _ λ notify_url has_notify_url. done Q _ tt

  pub load_asynq_config-Requires : Requires (λ _. Unit {0}) asynq_keys load_asynq_config
  unfolding load_asynq_config
  load_asynq_config-Requires =
      let Q : AsynqConfig → Type 0 = (λ _. Unit {0}) in
      needs Q _ _ _ λ host has_host. needs Q _ _ _ λ port has_port.
        optional_int Q _ _ _ _ λ redis_db. needs Q _ _ _ λ redis_pass has_redis_pass.
          optional_int Q _ _ _ _ λ concurrency. optional_int Q _ _ _ _ λ default.
            optional_int Q _ _ _ _ λ critical. optional_int Q _ _ _ _ λ monitor_port. done Q _ tt

  pub load_rate_limit_config-Requires :
      Requires (λ _. Unit {0}) rate_limit_keys load_rate_limit_config
  unfolding load_rate_limit_config
  load_rate_limit_config-Requires =
      let Q : RateLimitConfig → Type 0 = (λ _. Unit {0}) in
      optional_bool Q _ _ _ _ λ enabled.
        optional_int Q _ _ _ _
          λ request_per_minute. optional_int Q _ _ _ _ λ burst_size. done Q _ tt

  pub load_logger_config-Requires : Requires (λ _. Unit {0}) logger_keys load_logger_config
  unfolding load_logger_config
  load_logger_config-Requires =
      let Q : LoggerConfig → Type 0 = (λ _. Unit {0}) in
      needs Q _ _ _ λ level has_level.
        needs Q _ _ _ λ format has_format. needs Q _ _ _ λ output has_output. done Q _ tt
