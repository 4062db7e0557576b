-- ===== src/Errors.antt =====
-- The `error` values of the program: the variables of internal/modules/identity/domain/error/errors.go
-- and internal/modules/identity/app/dto/auth.go, internal/platform/idempotency/errors.go, internal/platform/redis/errors.go,
-- internal/platform/outbox/errors.go and internal/platform/tx/tx.go, and one constructor for each
-- failure that the code makes up where it stands or passes on from a library.

pub data Error : Type 0 where
  -- identity
  user_not_found email_already_exist email_not_verified : Error
  credential_not_found invalid_credentials wrong_current_password password_too_weak
        reset_token_expired :
      Error
  session_not_found session_expired session_revoked : Error
  device_limit_reached device_not_owned device_not_found : Error
  address_not_found address_not_owned : Error
  invalid_status_transition email_required : Error
  invalid_email_format email_too_long same_as_old_password : Error
  verify_token_not_found reset_token_not_found : Error
  -- idempotency
  missing_key request_in_progress request_hash_mismatch record_not_found : Error
  missing_consumer_name missing_event_id : Error
  -- outbox
  no_rows empty_token : Error
  -- transactions
  commit_failed rollback_failed tx_closed : Error
  -- Redis helpers
  unavailable cache_miss lock_not_acquired lock_not_held : Error
  -- libraries and services: Postgres, Redis, JSON and decimals, Kafka, random numbers, bcrypt, JWT
  db_failed check_violation unique_violation : Error
  redis_failed decode_failed encode_failed kafka_failed random_failed hash_failed token_failed :
      Error

pub Error-discrete : Discrete Error
Error-discrete = hlevel
