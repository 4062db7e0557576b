-- ===== src/Kafka/Consumer/Recovery.antt =====
-- A handler behind the recovery middleware does not take the consumer down.
use bookstore_golang.Base.{
  ◌≡◌, ◌≢◌, refl, sym, ◌∙◌, subst, inl, inr, Option-cases, List, [], ◌∷◌, arith,
}
use bookstore_golang.Base.Text.{Str}
use bookstore_golang.Base.Int.{ℤ, pos, negsuc}
use bookstore_golang.Errors.{Error}
use bookstore_golang.Kafka.Message.{Coding, RawMessage}
use bookstore_golang.Kafka.Producer.{Broker}
use bookstore_golang.Kafka.Handler.{
  Message, Values, Handler, Middleware, Outcome, Outcome-cases, done, failed, panicked, chain,
  recovery_middleware,
}
use bookstore_golang.Kafka.Handler.Chain.{nest, chain_lem}
use bookstore_golang.Kafka.Settings.{Config}
use bookstore_golang.Kafka.Consumer.{
  parse_message, inject_trace_context, handle_with_retry, settle, Turn, shutdown, interrupted,
  fetch_failed, fetched, Exit, running, crashed, unless_over, take_message, consume,
}
use bookstore_golang.Kafka.Consumer.Retry.{Attempted, handle_with_retry_bounds}

module _ {S : Type 0} where
  recovery_calm :
      (e : Error) (next : Handler S) (c : Values) (msg : Message) (s : S)
      → (recovery_middleware e next c msg s).0 ≢ panicked
  unfolding recovery_middleware
  recovery_calm e next c msg s h = elim (Outcome-cases (next c msg s).0) [
    | inl d ↦ ground arith
    | inr (inl (x, f)) ↦ ground arith
    | inr (inr p) ↦ ground arith
  ]

module _ {S : Type 0} (l : Coding) (cfg : Config) (message : Error → Str) (h : Handler S)
    (calm : (c : Values) (msg : Message) (s : S) → (h c msg s).0 ≢ panicked) where
  Attempted-calm :
      (c : Values) (msg : Message) (n backoff : ℤ) (b : Broker S) (r : Outcome × Broker S)
      → Attempted h c msg n backoff b r
      → r.0 ≢ panicked
  Attempted-calm c msg (pos n) backoff b r (k, few, after, last, before, all) p =
      calm c msg _ (sym last ∙ p)
  Attempted-calm c msg (negsuc n) backoff b r same p = cc

  retry_calm :
      (c : Values) (msg : Message) (b : Broker S) → (handle_with_retry cfg h c msg b).0 ≢ panicked
  retry_calm c msg b =
      Attempted-calm c msg cfg.consumer_max_retries cfg.consumer_retry_backoff b
        (handle_with_retry cfg h c msg b) (handle_with_retry_bounds h c msg cfg b)

  settle_runs :
      (raw : RawMessage) (r : Outcome × Broker S)
      → r.0 ≢ panicked
      → (settle l cfg message raw r).0 ≡ running
  settle_runs raw (done, b) p = refl
  settle_runs raw (failed e, b) p = refl
  settle_runs raw (panicked, b) p = absurd (p refl)

  take_message_runs :
      (raw : RawMessage) (b : Broker S) → (take_message l cfg message h raw b).0 ≡ running
  unfolding take_message
  take_message_runs raw b = elim (Option-cases (parse_message l raw)) [
    | inl unread ↦ rw (take_message, unread) refl
    | inr (msg, read) ↦
        rw (take_message, read) (settle_runs raw _ (retry_calm (inject_trace_context [] msg) msg b))
  ]

  consume_goes_on :
      (turns : List Turn) (b : Broker S) → (consume l cfg message h turns b).0 ≢ crashed
  unfolding consume
  consume_goes_on [] b p = absurd (cc)
  consume_goes_on (shutdown ∷ turns) b p = absurd (cc)
  consume_goes_on (interrupted ∷ turns) b p = absurd (cc)
  consume_goes_on (fetch_failed ∷ turns) b p = consume_goes_on turns _ p
  consume_goes_on (fetched raw ∷ turns) b p =
      let r = take_message l cfg message h raw b in
      let rest = consume l cfg message h turns r.1 in
      consume_goes_on turns r.1
        (subst (λ (x : Exit). (unless_over x r rest).0 ≡ crashed) (take_message_runs raw b) p)

module _ {S : Type 0} (l : Coding) (cfg : Config) (message : Error → Str) where
  -- A consumer whose handler stands behind a chain that begins with the recovery middleware does
  -- not crash, whatever the handler, the other middlewares, the turns and the failing calls.
  pub consume-recovery :
      (e : Error) (ms : List (Middleware S)) (h : Handler S) (turns : List Turn) (b : Broker S)
      → (consume l cfg message (chain (recovery_middleware e ∷ ms) h) turns b).0 ≢ crashed
  consume-recovery e ms h turns b =
      consume_goes_on l cfg message (chain (recovery_middleware e ∷ ms) h)
        (λ c msg s.
          subst (λ (k : Handler S). (k c msg s).0 ≢ panicked)
            (sym (chain_lem (recovery_middleware e ∷ ms) h)) (recovery_calm e (nest ms h) c msg s))
        turns b
