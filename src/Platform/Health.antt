-- ===== src/Platform/Health.antt =====
-- internal/platform/observability/health.go and internal/platform/redis/health.go. The calls of
-- go-redis and kafka-go are parameters; the limit of two seconds on a ping is not modelled.

pub mod Closed
use bookstore_golang.Base.{List, [], ◌∷◌, ℕ, Option, none, some, Result, ok, err, Action}
use bookstore_golang.Base.Text.{Str, codes}
use bookstore_golang.Errors.{Error, unavailable}
use bookstore_golang.Config.Load.{Config}

-- `W` is the state of the servers and `C` are connections; an error carries its text.
pub record Probes (W : Type 0) (C : Type 0) : Type 0 where
  pub ping : Action W Str (Unit {0})
  pub dial : Str → Action W Str C
  pub conn_brokers : C → Action W Str (List Str)
  pub conn_close : C → W → W

-- The status and the body of an answer.
pub record Health : Type 0 where
  pub code : ℕ
  pub status : Str
  pub message : Option Str

unfoldable pub up : Str → Health
up message = record { code = 200; status = codes "ok"; message = some message }

unfoldable pub down : ℕ → Str → Health
down code message = record { code = code; status = codes "error"; message = some message }

unfoldable pub health : Health
health = record { code = 200; status = codes "ok"; message = none }

module _ {W C : Type 0} (p : Probes W C) where
  abbrev pub answered : Str → {A : Type 0} → Result Str A × W → Health × W
  answered message (err e, w) = (down 503 e, w)
  answered message (ok a, w) = (up message, w)

  -- The client is nil where `redis_client` is none.
  unfoldable pub health_redis : Option (Unit {0}) → W → Health × W
  health_redis none w = (down 500 (codes "redis client not initialized"), w)
  health_redis (some client) w = answered (codes "redis is up") (p.ping w)

  -- The connection is closed on the way out.
  abbrev pub dialed : Result Str C × W → Health × W
  dialed (err e, w) = (down 503 e, w)
  dialed (ok conn, w) =
      let (answer, w) = answered (codes "kafka is up") (p.conn_brokers conn w) in
      (answer, p.conn_close conn w)

  abbrev pub first_broker : List Str → W → Health × W
  first_broker [] w = (down 500 (codes "kafka brokers not configured"), w)
  first_broker (broker ∷ brokers) w = dialed (p.dial broker w)

  unfoldable pub health_kafka : Option Config → W → Health × W
  health_kafka none w = first_broker [] w
  health_kafka (some cfg) w = first_broker cfg.kafka.brokers w

  abbrev checked : Result Str (Unit {0}) × W → Result Error (Unit {0}) × W
  checked (err e, w) = (err unavailable, w)
  checked (ok pong, w) = (ok tt, w)

  -- `HealthChecker.Check`
  unfoldable pub check : Action W Error (Unit {0})
  check w = checked (p.ping w)
