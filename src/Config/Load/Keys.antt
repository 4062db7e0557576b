-- ===== src/Config/Load/Keys.antt =====
-- The names that each section of the settings requires, in the order in which they are read.
use bookstore_golang.Base.{List, [], ◌∷◌, ◌++◌}
use bookstore_golang.Base.Text.{Str, codes}

abbrev pub db_keys : List Str
db_keys =
    codes "DB_HOST"
    ∷ codes "DB_PORT"
    ∷ codes "DB_NAME"
    ∷ codes "DB_USER"
    ∷ codes "DB_PASSWORD"
    ∷ codes "DB_SSL_MODE"
    ∷ codes "DB_MIGRATION_DIR"
    ∷ []

abbrev pub app_keys : List Str
app_keys = codes "APP_ENV" ∷ codes "APP_NAME" ∷ codes "APP_PORT" ∷ codes "APP_VERSION" ∷ []

abbrev pub redis_keys : List Str
redis_keys = codes "REDIS_HOST" ∷ codes "REDIS_PORT" ∷ codes "REDIS_PASSWORD" ∷ []

abbrev pub kafka_keys : List Str
kafka_keys =
    codes "KAFKA_BROKERS"
    ∷ codes "KAFKA_CONSUMER_GROUP_ID"
    ∷ codes "KAFKA_CLIENT_ID"
    ∷ codes "KAFKA_TOPIC_PREFIX"
    ∷ []

abbrev pub minio_keys : List Str
minio_keys =
    codes "MINIO_ENDPOINT"
    ∷ codes "MINIO_ACCESS_KEY"
    ∷ codes "MINIO_SECRET_KEY"
    ∷ codes "MINIO_BUCKET_AVATARS"
    ∷ codes "MINIO_BUCKET_BOOKS"
    ∷ []

abbrev pub jwt_keys : List Str
jwt_keys = codes "JWT_SECRET" ∷ codes "JWT_ISSUER" ∷ []

abbrev pub email_keys : List Str
email_keys =
    codes "SMTP_HOST"
    ∷ codes "SMTP_USER"
    ∷ codes "SMTP_PASSWORD"
    ∷ codes "SMTP_FROM_EMAIL"
    ∷ codes "SMTP_FROM_NAME"
    ∷ []

abbrev pub vn_pay_keys : List Str
vn_pay_keys =
    codes "VNPAY_TMN_CODE"
    ∷ codes "VNPAY_HASH_SECRET"
    ∷ codes "VNPAY_PAYMENT_URL"
    ∷ codes "VNPAY_RETURN_URL"
    ∷ codes "VNPAY_NOTIFY_URL"
    ∷ []

abbrev pub asynq_keys : List Str
asynq_keys = codes "REDIS_HOST" ∷ codes "REDIS_PORT" ∷ codes "REDIS_PASSWORD" ∷ []

abbrev pub rate_limit_keys : List Str
rate_limit_keys = []

abbrev pub logger_keys : List Str
logger_keys = codes "LOG_LEVEL" ∷ codes "LOG_FORMAT" ∷ codes "LOG_OUTPUT" ∷ []

-- The names that must be set, in the order in which they are read.
abbrev pub required : List Str
required =
    db_keys
    ++ (app_keys
        ++ (redis_keys
            ++ (kafka_keys
                ++ (minio_keys
                    ++ (jwt_keys
                        ++ (email_keys
                            ++ (vn_pay_keys
                                ++ (asynq_keys ++ (rate_limit_keys ++ (logger_keys ++ []))))))))))
