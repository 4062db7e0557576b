-- ===== src/Config/Load/Required.antt =====
-- What `MustLoad` requires of the environment.
use bookstore_golang.Base.{◌≡◌, Option, none, some, [], Result, ok, err, pure, ◌>>◌, find, arith}
use bookstore_golang.Base.Text.{Str, str_eq}
use bookstore_golang.Config.{Environment, Stop, missing}
use bookstore_golang.Config.Load.{Config, validate, must_load}
use bookstore_golang.Config.Load.Keys.{
  db_keys, app_keys, redis_keys, kafka_keys, minio_keys, jwt_keys, email_keys, vn_pay_keys,
  asynq_keys, rate_limit_keys, logger_keys, required,
}
use bookstore_golang.Config.Load.Requires.{
  HasSecret, HasDatabase, Requires, Outcome, first_missing, chain, load_db_config-Requires,
  load_app_config-Requires, load_redis_config-Requires, load_kafka_config-Requires,
  load_minio_config-Requires, load_jwt_config-Requires, load_email_config-Requires,
  load_vn_pay_config-Requires, load_asynq_config-Requires, load_rate_limit_config-Requires,
  load_logger_config-Requires,
}

module _ (env : Environment) where
  -- The process ends at a name that is missing, or goes on with the settings.
  abbrev pub Loads : Option Str → Result Stop Config × Environment → Type 0
  Loads none r = (c : Config) × (r ≡ (ok c, env))
  Loads (some k) r = r ≡ (err (missing k), env)

  Loads-Outcome :
      (o : Option Str) (r : Result Stop Config × Environment)
      → Outcome env (λ _. Unit {0}) o r
      → Loads o r
  Loads-Outcome none r (c, loaded, _) = (c, loaded)
  Loads-Outcome (some k) r stopped = stopped

  validated :
      (c : Config)
      → HasSecret c.jwt
      → HasDatabase c.db
      → Requires env (λ _. Unit {0}) [] (validate c >> pure c)
  unfolding validate find
  validated c secret database = record { outcome = (c, ground (arith, secret, database), tt) }

  must_load-Requires : Requires env (λ _. Unit {0}) required must_load
  unfolding must_load
  must_load-Requires =
      chain env HasDatabase (λ _. Unit {0}) db_keys _ _ _ (load_db_config-Requires env)
        λ db has_db.
          chain env (λ _. Unit {0}) (λ _. Unit {0}) app_keys _ _ _ (load_app_config-Requires env)
            λ app has_app.
              chain env (λ _. Unit {0}) (λ _. Unit {0}) redis_keys _ _ _
                (load_redis_config-Requires env)
                λ redis has_redis.
                  chain env (λ _. Unit {0}) (λ _. Unit {0}) kafka_keys _ _ _
                    (load_kafka_config-Requires env)
                    λ kafka has_kafka.
                      chain env (λ _. Unit {0}) (λ _. Unit {0}) minio_keys _ _ _
                        (load_minio_config-Requires env)
                        λ minio has_minio.
                          chain env HasSecret (λ _. Unit {0}) jwt_keys _ _ _
                            (load_jwt_config-Requires env)
                            λ jwt has_jwt.
                              chain env (λ _. Unit {0}) (λ _. Unit {0}) email_keys _ _ _
                                (load_email_config-Requires env)
                                λ email has_email.
                                  chain env (λ _. Unit {0}) (λ _. Unit {0}) vn_pay_keys _ _ _
                                    (load_vn_pay_config-Requires env)
                                    λ vn_pay has_vn_pay.
                                      chain env (λ _. Unit {0}) (λ _. Unit {0}) asynq_keys _ _ _
                                        (load_asynq_config-Requires env)
                                        λ asynq has_asynq.
                                          chain env (λ _. Unit {0}) (λ _. Unit {0}) rate_limit_keys
                                            _ _ _ (load_rate_limit_config-Requires env)
                                            λ rate_limit has_rate_limit.
                                              chain env (λ _. Unit {0}) (λ _. Unit {0}) logger_keys
                                                _ _ _ (load_logger_config-Requires env)
                                                λ logger has_logger. validated _ has_jwt has_db

  -- MustLoad ends the process at the first of the required names, in the order in which they are
  -- read, that is not set in the environment; if all are set it returns settings, so that the
  -- panics of validate never come.
  pub must_load_outcome : Loads (first_missing env required) (must_load env)
  must_load_outcome =
      Loads-Outcome (first_missing env required) (must_load env) must_load-Requires.outcome
