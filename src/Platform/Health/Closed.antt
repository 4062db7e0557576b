-- ===== src/Platform/Health/Closed.antt =====
-- The connections that a health check leaves open.
use bookstore_golang.Base.{
  ℕ, suc, ◌-◌, ◌≡◌, refl, ap, ◌∙◌, List, [], ◌∷◌, Option, none, some, Result, ok, err, arith,
}
use bookstore_golang.Base.Text.{Str, codes}
use bookstore_golang.Config.Load.{Config}
use bookstore_golang.Platform.Health.{Probes, health_kafka, dialed, first_broker, answered}

-- `opened` counts the open connections: a dial opens the connection that it gives, and Close closes
-- one.
pub record IsCounted {W C : Type 0} (p : Probes W C) (opened : W → ℕ) : Type 0 where
  pub dial_ok :
      (broker : Str) (w w' : W) (conn : C)
      → p.dial broker w ≡ (ok conn, w')
      → opened w' ≡ suc (opened w)
  pub dial_err :
      (broker : Str) (w w' : W) (e : Str) → p.dial broker w ≡ (err e, w') → opened w' ≡ opened w
  pub brokers_keep : (conn : C) (w : W) → opened (p.conn_brokers conn w).1 ≡ opened w
  pub close_one : (conn : C) (w : W) → opened (p.conn_close conn w) ≡ opened w - 1

module _ {W C : Type 0} (p : Probes W C) (opened : W → ℕ) (laws : IsCounted p opened) where
  answered_keeps :
      {A : Type 0} (message : Str) (r : Result Str A × W) → (answered p message r).1 ≡ r.1
  answered_keeps message (err e, w) = refl
  answered_keeps message (ok a, w) = refl

  dialed_closes :
      (broker : Str) (w : W) (r : Result Str C × W)
      → p.dial broker w ≡ r
      → opened (dialed p r).1 ≡ opened w
  dialed_closes broker w (err e, w') h = laws.dial_err broker w w' e h
  dialed_closes broker w (ok conn, w') h =
      let asked = answered_keeps (codes "kafka is up") (p.conn_brokers conn w') in
      let kept = ap opened asked ∙ laws.brokers_keep conn w' ∙ laws.dial_ok broker w w' conn h in
      laws.close_one conn (answered p (codes "kafka is up") (p.conn_brokers conn w')).1
      ∙ ap (λ n. n - 1) kept
      ∙ omega arith

  -- Whatever fails, a check of Kafka leaves as many connections open as there were.
  health_kafka_closes : (cfg : Option Config) (w : W) → opened (health_kafka p cfg w).1 ≡ opened w
  unfolding health_kafka
  health_kafka_closes none w = refl
  health_kafka_closes (some cfg) w = brokers_close cfg.kafka.brokers
    where
      brokers_close : (brokers : List Str) → opened (first_broker p brokers w).1 ≡ opened w
      brokers_close [] = refl
      brokers_close (broker ∷ brokers) = dialed_closes broker w (p.dial broker w) refl
