-- ===== src/Lib.antt =====
-- Verification of the bookstore backend: the core of its identity module and of the platform beneath.
--
-- A request reaches a service of internal/modules/identity, which reads and writes tables of Postgres
-- through repositories, keeps sessions and one-time tokens in Redis, and records events in an outbox
-- table in the transaction that changes the rows. A retried request is recognised by its idempotency
-- key. The model has the same parts:
--   Base         shared types: results, calls over a state, lists as tables, Go strings, and the
--                integers of Go that wrap around (Int.antt).
--   Errors       the error values of the program.
--   Config       internal/platform/config: the readers of single settings, Sections (app, database,
--                Redis, JWT and Kafka), Others (the rest), and Load (MustLoad).
--   Platform     Redis, as an interface with its documented laws (Redis.antt, and Counter.antt for
--                INCR and EXPIRE); Lock, RateLimit, Cache and Keys are lock.go, ratelimit.go
--                and quota.go, cache.go and keys.go of internal/platform/redis, and RateLimit
--                is internal/platform/httpx/ratelimit.go too; Settings is config.go of the same, and
--                Health is internal/platform/observability/health.go.
--   Database     the tables, the world that a call runs in, and the executor of
--                internal/platform/tx/context.go; Database/Tx.antt is internal/platform/tx/tx.go.
--   Kafka        internal/platform/kafka: Message (envelope.go, headers.go), Producer (producer.go,
--                dlq.go), Handler (handler.go), Topics (topic.go), Settings (config.go, and
--                ProvideKafkaConfig of internal/bootstrap/providers.go), Consumer (consumer.go),
--                whose loop walks over the turns that it meets, and Group, which is Register and
--                Close of consumer.go.
--   Outbox       internal/platform/outbox: the events, Record of service.go, Dispatcher
--                (dispatcher.go and postgres_repository.go) over a publisher that is a parameter,
--                and Publisher (publisher.go).
--   Idempotency  internal/platform/idempotency: Key (key.go), Record (record.go), Store
--                (redis_store.go), Service (service.go), Middleware (middleware.go) and Events
--                (processed_event_store.go).
--   Httpx        internal/platform/httpx: the middlewares of every request (request_id.go,
--                recovery.go, logger.go) and the answers of response.go, Cors (cors.go), Legacy
--                (auth_context.go) and Router, which chains them as router.go does.
--   Identity     internal/modules/identity: Status, Entity and Policy (domain/), Repo
--                (infra/postgres/, with its rows and scans in Repo/Rows), Cache, Publisher and
--                Tokens (infra/adapters/ and internal/platform/auth/jwt_auth.go), Auth
--                (app/service/auth_service.go), one file for each group of its operations:
--                Register, Login, Refresh, Password, Verify, and Addresses and Profile
--                (app/service/address_service.go and profile_service.go); Blacklist
--                (infra/adapters/redis_blacklist.go), and Http (http/): Router (router.go),
--                Middleware (http/middleware/), Handlers (auth_handler.go) and Profiles
--                (address_handler.go, profile_handler.go).
--   Tests        the theorems at concrete inputs.
--
-- Functions keep the names of the Go code in snake case: BeginHTTP is begin_http. A repository method
-- runs its statement, query_..., on the executor of the context. An operation takes the world and
-- gives a result with the world after it; what it wrote before an error stays written.
--
-- Time and failures. The world has a clock, which stands still during a call, and a list that says of
-- each coming call of a service whether it fails; the theorems hold for every such list unless they
-- say that no call fails. A call that fails has no effect. The random draws are numbered, and a random
-- token is a function of its number.
--
-- What is outside the repository is a parameter: the tables of package unicode,
-- mail.ParseAddress, SHA-256, bcrypt, JWT, JSON and decimals (Identity/Library.antt,
-- Base/Text.antt), how pgx reads a column (Identity/Repo/Rows.antt), how go-redis sends a time
-- to live, the order in which Go visits a map, and Redis. The laws that are assumed of Redis,
-- of codings and of the unicode tables are records (IsRedis, IsCodec, IsUnicode, IsCounters,
-- IsCoding, IsDriver), and instances of them show that they can hold.
--
-- Simplified: numbers are natural numbers but for the settings and the sleeps of the Kafka
-- consumer, which are integers that wrap around at 64 bits, or at 32 where the code converts
-- them; times and durations are in nanoseconds from an epoch; all tables draw their ids from
-- one sequence; UNIQUE constraints and the CHECK on the state of an event are modelled, foreign
-- keys are not; JSON columns keep the values that they code; log lines are left out; the
-- goroutine of RefreshToken that stores the session runs before the return. No loop needs fuel:
-- they walk over lists, and the attempts of the Kafka consumer, of which there are none where
-- the configured retries are negative, are counted down. A time to live of 0 is none, as go-
-- redis has it.
--
-- Not modelled: how gin reads and checks a body, the start of the web server, the wiring of
-- the parts and the commands.
pub mod Base
pub mod Errors
pub mod Config
pub mod Platform
pub mod Database
pub mod Kafka
pub mod Outbox
pub mod Idempotency
pub mod Httpx
pub mod Identity
pub mod Tests
