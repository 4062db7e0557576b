-- ===== src/Kafka/Consumer.antt =====
-- internal/platform/kafka/consumer.go. Every error of a handler is tried again, as
-- `shouldRetryConsumer` says.
pub mod Retry
pub mod Taken
pub mod Settled
pub mod Lost
pub mod Recovery
use bookstore_golang.Base.{
  ℕ, zero, suc, ◌+◌, ◌*◌, Bool, true, false, Option, none, some, List, [], ◌∷◌, ◌++◌, Result, ok,
  err, if◌then◌else◌,
}
use bookstore_golang.Base.Int.{ℤ, pos, negsuc, duration}
use bookstore_golang.Base.Text.{Str, codes}
use bookstore_golang.Errors.{Error, decode_failed}
use bookstore_golang.Kafka.Message.{Coding, Envelope, RawMessage, extract_metadata}
use bookstore_golang.Kafka.Producer.{Broker, call_broker, commit_messages, dlq_publish}
use bookstore_golang.Kafka.Settings.{Config}
use bookstore_golang.Kafka.Handler.{
  Message, Values, Handler, Outcome, done, failed, panicked, with_value, local_trace_key,
  local_correlation_key,
}

abbrev message_of : RawMessage → Option Envelope → Option Message
message_of raw none = none
message_of raw (some e) =
    let meta = extract_metadata raw.headers in
    some (record {
      envelope = e;
      raw = raw;
      trace_id = meta.trace_id;
      correlation_id = meta.correlation_id;
    })

unfoldable pub parse_message : Coding → RawMessage → Option Message
unfolding extract_metadata
parse_message l raw = message_of raw (l.unmarshal_envelope raw.value)

unfoldable pub inject_trace_context : Values → Message → Values
inject_trace_context c msg =
    with_value local_correlation_key msg.correlation_id (with_value local_trace_key msg.trace_id c)

abbrev pub should_retry_consumer : Error → Bool
should_retry_consumer e = true

-- How often the loop from 0 to the configured retries runs, which are fewer than the largest int.
unfoldable pub attempt_count : ℤ → ℕ
attempt_count (pos n) = suc n
attempt_count (negsuc n) = 0

-- `if attempt > 0 { time.Sleep(backoff) }`
abbrev pub pause : ℤ → ℕ → List ℤ
pause backoff zero = []
pause backoff (suc n) = duration (suc n) backoff ∷ []

module _ {S : Type 0} where
  -- One call of the handler.
  abbrev pub handle : Handler S → Values → Message → Broker S → Outcome × Broker S
  handle h c msg b = let r = h c msg b.app in (r.0, record b { app = r.1 })

  abbrev pub sleep : List ℤ → Broker S → Broker S
  sleep times b = record b { slept = b.slept ++ times }

  -- The attempts from `attempt` on, of which there are `left`.
  unfoldable pub attempts :
      Handler S → Values → Message → ℤ → ℕ → ℕ → Outcome → Broker S → Outcome × Broker S
  attempts h c msg backoff zero attempt last b = (last, b)
  attempts h c msg backoff (suc left) attempt last b =
      let r = handle h c msg (sleep (pause backoff attempt) b) in
      let rest = λ (e : Error). attempts h c msg backoff left (suc attempt) (failed e) r.1 in
      elim r.0 [
        | done ↦ (done, r.1)
        | failed e ↦ if should_retry_consumer e then rest e else (failed e, r.1)
        | panicked ↦ (panicked, r.1)
      ]

  -- With no attempt at all there is no error.
  unfoldable pub handle_with_retry :
      Config → Handler S → Values → Message → Broker S → Outcome × Broker S
  unfolding attempts attempt_count
  handle_with_retry cfg h c msg b =
      attempts h c msg cfg.consumer_retry_backoff (attempt_count cfg.consumer_max_retries) 0 done b

-- What an iteration of the loop meets: a shutdown, a fetch that the shutdown interrupts, a fetch that
-- fails, or a message.
pub data Turn : Type 0 where
  shutdown interrupted fetch_failed : Turn
  fetched : RawMessage → Turn

-- The loop goes on, has come to its end, or has gone down with the process.
pub data Exit : Type 0 where
  running stopped crashed : Exit

-- The rest of the loop, unless it is over.
abbrev pub unless_over : {S : Type 0} → Exit → Exit × Broker S → Exit × Broker S → Exit × Broker S
unless_over running r rest = rest
unless_over stopped r rest = r
unless_over crashed r rest = r

module _ {S : Type 0} (l : Coding) (cfg : Config) (message : Error → Str) where
  -- After the handler: the message that no attempt could handle goes to the dead letter queue, and
  -- the message is committed, whatever becomes of these two calls.
  abbrev pub settle : RawMessage → Outcome × Broker S → Exit × Broker S
  settle raw (done, b) = (running, (commit_messages raw b).1)
  settle raw (failed e, b) = (
    running,
    (commit_messages raw
        (dlq_publish l cfg.dlq_topic raw (codes "retry_exhausted") (message e) b).1).1,
  )
  settle raw (panicked, b) = (crashed, b)

module _ {S : Type 0} (l : Coding) (cfg : Config) (message : Error → Str) (h : Handler S) where
  -- An iteration on a message.
  unfoldable pub take_message : RawMessage → Broker S → Exit × Broker S
  unfolding parse_message inject_trace_context handle_with_retry dlq_publish call_broker
  take_message raw b = elim (parse_message l raw) [
    | none ↦ (
      running,
      (commit_messages raw
          (dlq_publish l cfg.dlq_topic raw (codes "parse_error") (message decode_failed) b).1).1,
    )
    | some msg ↦
        settle l cfg message raw (handle_with_retry cfg h (inject_trace_context [] msg) msg b)
  ]

  unfoldable pub consume : List Turn → Broker S → Exit × Broker S
  unfolding take_message
  consume [] b = (running, b)
  consume (shutdown ∷ turns) b = (stopped, b)
  consume (interrupted ∷ turns) b = (stopped, b)
  consume (fetch_failed ∷ turns) b = consume turns (sleep (cfg.consumer_retry_backoff ∷ []) b)
  consume (fetched raw ∷ turns) b =
      let r = take_message raw b in let rest = consume turns r.1 in unless_over r.0 r rest
