-- ===== src/Kafka/Consumer/Settled.antt =====
-- The messages that the consumer commits are handled, or in the dead letter queue, where no call of
-- Kafka fails.
use bookstore_golang.Base.{
  ℕ, some, ◌≡◌, refl, sym, ◌∙◌, ap, subst, inl, inr, List, [], ◌∷◌, ◌++◌, All, All-append,
}
use mathlib.Core.List.{append-nil, append_assoc}
use bookstore_golang.Base.Int.{ℤ, pos}
use bookstore_golang.Base.Text.{Str}
use bookstore_golang.Errors.{Error}
use bookstore_golang.Kafka.Message.{Coding, RawMessage}
use bookstore_golang.Kafka.Producer.{Broker, dlq_envelope, dlq_message}
use bookstore_golang.Kafka.Handler.{Message, Values, Handler, done}
use bookstore_golang.Kafka.Settings.{Config}
use bookstore_golang.Kafka.Consumer.{
  Turn, shutdown, interrupted, fetch_failed, fetched, Exit, running, crashed, unless_over,
  take_message, consume,
}
use bookstore_golang.Kafka.Consumer.Taken.{Codable, Settled, messages_of, take_message-Taken}

All-map : {A : Type 0} {P Q : A → Type 0} (l : List A) → ((x : A) → P x → Q x) → All P l → All Q l
All-map [] f p = tt
All-map (x ∷ l) f p = (f x p.0, All-map l f p.1)

module _ {S : Type 0} (l : Coding) (cfg : Config) (message : Error → Str) (h : Handler S) where
  consume_running :
      (raw : RawMessage) (turns : List Turn) (b b' : Broker S)
      → take_message l cfg message h raw b ≡ (running, b')
      → consume l cfg message h (fetched raw ∷ turns) b ≡ consume l cfg message h turns b'
  unfolding consume
  consume_running raw turns b b' e =
      ap (λ r. unless_over r.0 r (consume l cfg message h turns r.1)) e

  consume_crashed :
      (raw : RawMessage) (turns : List Turn) (b b' : Broker S)
      → take_message l cfg message h raw b ≡ (crashed, b')
      → consume l cfg message h (fetched raw ∷ turns) b ≡ (crashed, b')
  unfolding consume
  consume_crashed raw turns b b' e =
      ap (λ r. unless_over r.0 r (consume l cfg message h turns r.1)) e

  module _ (Done : RawMessage → S → Type 0)
      (keeps : (c : Values) (msg : Message) (s : S) (raw : RawMessage)
        → Done raw s
        → Done raw (h c msg s).1)
      (success : (c : Values) (msg : Message) (s : S)
        → (h c msg s).0 ≡ done
        → Done msg.raw (h c msg s).1) where
    -- What the end of the loop leaves.
    abbrev Settles : List Turn → Broker S → Exit × Broker S → Type 0
    Settles turns b r =
        All (Settled l cfg message h Done r.1) r.1.committed
        × (r.0 ≡ running → r.1.committed ≡ b.committed ++ messages_of turns)

    handled_next :
        (b : Broker S) (app : S) (slept : List ℤ) (raw : RawMessage)
        → ((other : RawMessage) → Done other b.app → Done other app)
        → Done raw app
        → All (Settled l cfg message h Done b) b.committed
        → let b' = record b { app = app; slept = slept; committed = b.committed ++ (raw ∷ []) } in
          All (Settled l cfg message h Done b') b'.committed
    handled_next b app slept raw kept d settled =
        All-append _ b.committed (raw ∷ [])
          (All-map b.committed (λ m s. elim s [ inl x ↦ inl (kept m x) | inr x ↦ inr x ]) settled)
          (inl d, tt)

    dead_next :
        (b : Broker S) (app : S) (slept : List ℤ) (raw : RawMessage) (reason text body : Str)
        → ((other : RawMessage) → Done other b.app → Done other app)
        → l.marshal_dlq (dlq_envelope raw reason text b.now) ≡ some body
        → All (Settled l cfg message h Done b) b.committed
        → let b' = record b {
          app = app;
          slept = slept;
          written = b.written ++ (dlq_message l cfg.dlq_topic raw reason b.now body ∷ []);
          committed = b.committed ++ (raw ∷ []);
        } in
          All (Settled l cfg message h Done b') b'.committed
    dead_next b app slept raw reason text body kept coded settled =
        let dead = dlq_message l cfg.dlq_topic raw reason b.now body in
        All-append _ b.committed (raw ∷ [])
          (All-map b.committed
            (λ m s. elim s [
              | inl x ↦ inl (kept m x)
              | inr (r, t, y, before, after, c, e) ↦ inr (
                r,
                t,
                y,
                before,
                after ++ (dead ∷ []),
                c,
                ap (λ w. w ++ (dead ∷ [])) e ∙ append_assoc before _ _,
              )
            ])
            settled)
          (inr (reason, text, body, b.written, [], coded, refl), tt)

    -- For a configuration with no negative number of retries, any handler, and any record of what
    -- is handled, which every call of the handler keeps and a call without an error enters its
    -- message in: when no call of Kafka fails, the dead letter of each message that comes can be
    -- coded, and each message committed before is handled or held by the dead letter queue, then
    -- so is each message committed after the turns of the loop; and if the loop goes on after
    -- them, it has committed each of their messages once, in order.
    pub consume_settles :
        (n : ℕ) (turns : List Turn) (b : Broker S)
        → cfg.consumer_max_retries ≡ pos n
        → b.faults ≡ []
        → All (Codable l) (messages_of turns)
        → All (Settled l cfg message h Done b) b.committed
        → let r = consume l cfg message h turns b in
          All (Settled l cfg message h Done r.1) r.1.committed
          × (r.0 ≡ running → r.1.committed ≡ b.committed ++ messages_of turns)
    unfolding consume
    consume_settles n [] b retries calm codable settled =
        (settled, λ e. sym (append-nil b.committed))
    consume_settles n (shutdown ∷ turns) b retries calm codable settled =
        (settled, λ e. absurd (cc))
    consume_settles n (interrupted ∷ turns) b retries calm codable settled =
        (settled, λ e. absurd (cc))
    consume_settles n (fetch_failed ∷ turns) b retries calm codable settled =
        consume_settles n turns (record b { slept = b.slept ++ (cfg.consumer_retry_backoff ∷ []) })
          retries calm codable settled
    consume_settles n (fetched raw ∷ turns) b retries calm codable settled =
        let (app, slept, kept, ways) =
          take_message-Taken l cfg message h Done keeps success n raw b retries calm codable.0 in
        elim ways [
          | inl (e, d) ↦
              let b' = record b {
                app = app;
                slept = slept;
                committed = b.committed ++ (raw ∷ []);
              } in
              let (p, q) =
                consume_settles n turns b' retries calm codable.1
                  (handled_next b app slept raw kept d settled) in
              subst (Settles (fetched raw ∷ turns) b) (sym (consume_running raw turns b b' e))
                (p, λ x. q x ∙ append_assoc b.committed _ _)
          | inr (inl (reason, text, body, coded, e)) ↦
              let b' = record b {
                app = app;
                slept = slept;
                written = b.written ++ (dlq_message l cfg.dlq_topic raw reason b.now body ∷ []);
                committed = b.committed ++ (raw ∷ []);
              } in
              let (p, q) =
                consume_settles n turns b' retries calm codable.1
                  (dead_next b app slept raw reason text body kept coded settled) in
              subst (Settles (fetched raw ∷ turns) b) (sym (consume_running raw turns b b' e))
                (p, λ x. q x ∙ append_assoc b.committed _ _)
          | inr (inr e) ↦
              subst (Settles (fetched raw ∷ turns) b)
                (sym (consume_crashed raw turns b (record b { app = app; slept = slept }) e))
                (
                  All-map b.committed (λ m s. elim s [ inl x ↦ inl (kept m x) | inr x ↦ inr x ])
                      settled,
                  λ x. absurd (cc),
                )
        ]
