-- ===== src/Kafka/Consumer/Taken.antt =====
-- What becomes of a message that the consumer takes, where no call of Kafka fails.
use bookstore_golang.Base.{
  ℕ, zero, suc, ◌≡◌, refl, sym, ◌∙◌, ap, subst, ◌⊎◌, inl, inr, some, Option-cases, List, [], ◌∷◌,
  ◌++◌, ok, arith,
}
use bookstore_golang.Base.Int.{ℤ, pos}
use bookstore_golang.Base.Text.{Str, codes}
use bookstore_golang.Errors.{Error, decode_failed}
use bookstore_golang.Kafka.Message.{Coding, RawMessage}
use bookstore_golang.Kafka.Producer.{
  Broker, call_broker, commit_messages, dlq_envelope, dlq_message, dlq_publish,
}
use bookstore_golang.Kafka.Handler.{Message, Values, Handler, Outcome, done, failed, panicked}
use bookstore_golang.Kafka.Settings.{Config}
use bookstore_golang.Kafka.Consumer.{
  parse_message, inject_trace_context, Turn, shutdown, interrupted, fetch_failed, fetched, Exit,
  running, crashed, take_message, settle,
}
use bookstore_golang.Kafka.Consumer.Retry.{handle_with_retry-Tried, Tried, waits, app_after}

-- A list begins with the other one.
abbrev pub Extends : {A : Type 0} → List A → List A → Type 0
Extends {A} l l' = (more : List A) × (l' ≡ l ++ more)

module _ {S : Type 0} (l : Coding) (cfg : Config) (message : Error → Str) (h : Handler S)
    (Done : RawMessage → S → Type 0) where
  -- A message that the dead letter queue holds, whole, with a reason.
  abbrev pub DeadLettered : RawMessage → Broker S → Type 0
  DeadLettered raw b =
      (reason : Str) × (text : Str) × (body : Str) × (before : List RawMessage) × (after : List
        RawMessage)
      × (l.marshal_dlq (dlq_envelope raw reason text b.now) ≡ some body)
      × (b.written ≡ before ++ (dlq_message l cfg.dlq_topic raw reason b.now body ∷ after))

  abbrev pub Settled : Broker S → RawMessage → Type 0
  Settled b raw = Done raw b.app ⊎ DeadLettered raw b

-- The messages of the turns.
abbrev pub messages_of : List Turn → List RawMessage
messages_of [] = []
messages_of (shutdown ∷ turns) = messages_of turns
messages_of (interrupted ∷ turns) = messages_of turns
messages_of (fetch_failed ∷ turns) = messages_of turns
messages_of (fetched raw ∷ turns) = raw ∷ messages_of turns

module _ {S : Type 0} (l : Coding) where
  dlq_publish_ok :
      (dlq_topic : Str) (raw : RawMessage) (reason text : Str) (b : Broker S) {body : Str}
      → b.faults ≡ []
      → l.marshal_dlq (dlq_envelope raw reason text b.now) ≡ some body
      → dlq_publish l dlq_topic raw reason text b ≡ (
        ok tt,
        record b { written = b.written ++ (dlq_message l dlq_topic raw reason b.now body ∷ []) },
      )
  unfolding dlq_publish call_broker
  dlq_publish_ok dlq_topic raw reason text b calm coded = ground arith

pub commit_ok :
    {S : Type 0} (raw : RawMessage) (b : Broker S)
    → b.faults ≡ []
    → commit_messages raw b ≡ (ok tt, record b { committed = b.committed ++ (raw ∷ []) })
unfolding call_broker
commit_ok raw b calm = ground arith

raw_of :
    (l : Coding) (raw : RawMessage) (msg : Message) → parse_message l raw ≡ some msg → msg.raw ≡ raw
unfolding parse_message
raw_of l raw msg read = ground arith

-- The dead letter of a message can be coded, whatever the reason.
abbrev pub Codable : Coding → RawMessage → Type 0
Codable l raw =
    (reason text : Str) (now : ℕ)
    → (body : Str) × (l.marshal_dlq (dlq_envelope raw reason text now) ≡ some body)

module _ {S : Type 0} (l : Coding) (cfg : Config) (message : Error → Str) (h : Handler S)
    (Done : RawMessage → S → Type 0)
    (keeps : (c : Values) (msg : Message) (s : S) (raw : RawMessage)
      → Done raw s
      → Done raw (h c msg s).1)
    (success : (c : Values) (msg : Message) (s : S)
      → (h c msg s).0 ≡ done
      → Done msg.raw (h c msg s).1) where
  app_after_keeps :
      (c : Values) (msg : Message) (n : ℕ) (s : S) (raw : RawMessage)
      → Done raw s
      → Done raw (app_after h c msg n s)
  app_after_keeps c msg zero s raw d = d
  app_after_keeps c msg (suc n) s raw d =
      app_after_keeps c msg n (h c msg s).1 raw (keeps c msg s raw d)

  app_after-suc :
      (c : Values) (msg : Message) (n : ℕ) (s : S)
      → app_after h c msg (suc n) s ≡ (h c msg (app_after h c msg n s)).1
  app_after-suc c msg zero s = refl
  app_after-suc c msg (suc n) s = app_after-suc c msg n (h c msg s).1

  -- The three ways of a message.
  abbrev pub Taken : RawMessage → Broker S → Exit × Broker S → Type 0
  Taken raw b r =
      (app : S) × (slept : List ℤ) × ((other : RawMessage) → Done other b.app → Done other app)
      × (((r ≡ (
        running,
        record b { app = app; slept = slept; committed = b.committed ++ (raw ∷ []) },
      ))
            × Done raw app)
          ⊎ (((reason : Str) × (text : Str) × (body : Str) × (l.marshal_dlq
                    (dlq_envelope raw reason text b.now)
                  ≡ some body)
                × (r ≡ (
                  running,
                  record b {
                    app = app;
                    slept = slept;
                    written = b.written ++ (dlq_message l cfg.dlq_topic raw reason b.now body ∷ []);
                    committed = b.committed ++ (raw ∷ []);
                  },
                )))
              ⊎ (r ≡ (crashed, record b { app = app; slept = slept }))))

  settle_failed :
      (raw : RawMessage) (reason text : Str) (b : Broker S) (app : S) (slept : List ℤ)
      → b.faults ≡ []
      → Codable l raw
      → ((other : RawMessage) → Done other b.app → Done other app)
      → Taken raw b (
        running,
        (commit_messages raw
            (dlq_publish l cfg.dlq_topic raw reason text
              (record b { app = app; slept = slept })).1).1,
      )
  settle_failed raw reason text b app slept calm codable kept =
      let b1 = record b { app = app; slept = slept } in
      let (body, coded) = codable reason text b.now in
      let b2 = record b1 {
        written = b.written ++ (dlq_message l cfg.dlq_topic raw reason b.now body ∷ []);
      } in
      (
        app,
        slept,
        kept,
        inr (
            inl (
              reason,
              text,
              body,
              coded,
              ap (λ (b' : Broker S). (running, (commit_messages raw b').1))
                    (ap (λ r. r.1) (dlq_publish_ok l cfg.dlq_topic raw reason text b1 calm coded))
                  ∙ ap (λ r. (running, r.1)) (commit_ok raw b2 calm),
            )),
      )

  settle-Tried :
      (n : ℕ) (raw : RawMessage) (c : Values) (msg : Message) (b : Broker S)
      (r : Outcome × Broker S)
      → b.faults ≡ []
      → Codable l raw
      → msg.raw ≡ raw
      → Tried h c msg cfg.consumer_retry_backoff n 0 b r
      → Taken raw b (settle l cfg message raw r)
  settle-Tried n raw c msg b (done, b') calm codable same (k, few, after, last, before, all) =
      let app = app_after h c msg (suc k) b.app in
      let slept = b.slept ++ waits cfg.consumer_retry_backoff 0 (suc k) in
      (
        app,
        slept,
        λ other. app_after_keeps c msg (suc k) b.app other,
        inl (
          ap (λ (x : Broker S). (running, (commit_messages raw x).1)) after
              ∙ ap (λ r. (running, r.1))
                  (commit_ok raw (record b { app = app; slept = slept }) calm),
          subst (λ s. Done raw s) (sym (app_after-suc c msg k b.app))
              (subst (λ m. Done m (h c msg (app_after h c msg k b.app)).1) same
                (success c msg (app_after h c msg k b.app) (sym last))),
        ),
      )
  settle-Tried n raw c msg b (failed e, b') calm codable same (k, few, after, last, before, all) =
      subst
        (λ (x : Broker S). Taken raw b (
          running,
          (commit_messages raw
              (dlq_publish l cfg.dlq_topic raw (codes "retry_exhausted") (message e) x).1).1,
        ))
        (sym after)
        (settle_failed raw (codes "retry_exhausted") (message e) b (app_after h c msg (suc k) b.app)
          (b.slept ++ waits cfg.consumer_retry_backoff 0 (suc k)) calm codable
          (λ other. app_after_keeps c msg (suc k) b.app other))
  settle-Tried n raw c msg b (panicked, b') calm codable same (k, few, after, last, before, all) = (
    app_after h c msg (suc k) b.app,
    b.slept ++ waits cfg.consumer_retry_backoff 0 (suc k),
    λ other. app_after_keeps c msg (suc k) b.app other,
    inr (inr (ap (λ (x : Broker S). (crashed, x)) after)),
  )

  pub take_message-Taken :
      (n : ℕ) (raw : RawMessage) (b : Broker S)
      → cfg.consumer_max_retries ≡ pos n
      → b.faults ≡ []
      → Codable l raw
      → Taken raw b (take_message l cfg message h raw b)
  unfolding take_message
  take_message-Taken n raw b retries calm codable = elim (Option-cases (parse_message l raw)) [
    | inl unread ↦
        rw (take_message, unread)
          (settle_failed raw (codes "parse_error") (message decode_failed) b b.app b.slept calm
            codable (λ other d. d))
    | inr (msg, read) ↦
        rw (take_message, read)
          (settle-Tried n raw (inject_trace_context [] msg) msg b _ calm codable
            (raw_of l raw msg read)
            (handle_with_retry-Tried h (inject_trace_context [] msg) msg cfg n b retries))
  ]
