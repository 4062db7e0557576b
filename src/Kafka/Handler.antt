-- ===== src/Kafka/Handler.antt =====
-- internal/platform/kafka/handler.go: handlers and their middlewares.
pub mod Chain
use bookstore_golang.Base.{◌≡◌, refl, ◌⊎◌, inl, inr, List, [], ◌∷◌, ◌++◌, ◌==◌, if◌then◌else◌}
use bookstore_golang.Base.Text.{Str, codes, str_eq}
use bookstore_golang.Errors.{Error}
use bookstore_golang.Kafka.Message.{Coding, Envelope, RawMessage, MessageMetadata, extract_metadata}

pub record Message : Type 0 where
  pub envelope : Envelope
  pub raw : RawMessage
  pub trace_id : Str
  pub correlation_id : Str

-- The keys of the values of a context: the two of this file, and the two types that
-- `injectTraceContext` of consumer.go declares in its body.
pub data ContextKey : Type 0 where
  trace_id_key correlation_id_key local_trace_key local_correlation_key : ContextKey

unfoldable pub ContextKey-discrete : Discrete ContextKey
ContextKey-discrete = hlevel

-- A context, with its newest value first.
abbrev pub Values : Type 0
Values = List (ContextKey × Str)

abbrev pub with_value : ContextKey → Str → Values → Values
with_value k v c = (k, v) ∷ c

-- What a call of a handler comes to.
pub data Outcome : Type 0 where
  done : Outcome
  failed : Error → Outcome
  panicked : Outcome

pub Outcome-cases : (o : Outcome) → (o ≡ done) ⊎ (((e : Error) × (o ≡ failed e)) ⊎ (o ≡ panicked))
Outcome-cases done = inl refl
Outcome-cases (failed e) = inr (inl (e, refl))
Outcome-cases panicked = inr (inr refl)

-- A handler over a state `S`.
abbrev pub Handler : Type 0 → Type 0
Handler S = Values → Message → S → Outcome × S

abbrev pub Middleware : Type 0 → Type 0
Middleware S = Handler S → Handler S

unfoldable pub backwards : {A : Type 0} → List A → List A
backwards [] = []
backwards (x ∷ l) = backwards l ++ (x ∷ [])

-- `meta.TraceID`, or one that is made of the time.
abbrev pub or_generated_trace : Str → Str → Str
or_generated_trace trace_id time =
    if trace_id == [] then codes "generated-trace-" ++ time else trace_id

module _ {S : Type 0} where
  -- The loop of `Chain`, which goes down the indices.
  unfoldable pub wrap_all : List (Middleware S) → Handler S → Handler S
  wrap_all [] next = next
  wrap_all (m ∷ ms) next = wrap_all ms (m next)

  unfoldable pub chain : List (Middleware S) → Middleware S
  unfolding wrap_all backwards
  chain middlewares next = wrap_all (backwards middlewares) next

  unfoldable pub tracing_middleware : Str → Middleware S
  unfolding extract_metadata
  tracing_middleware time next c msg =
      let meta = extract_metadata msg.raw.headers in
      next
        (with_value correlation_id_key meta.correlation_id
          (with_value trace_id_key (or_generated_trace meta.trace_id time) c))
        msg

  abbrev recovered : Error → Outcome × S → Outcome × S
  recovered e (done, s) = (done, s)
  recovered e (failed x, s) = (failed x, s)
  recovered e (panicked, s) = (failed e, s)

  -- With the error that a panic is made into.
  unfoldable pub recovery_middleware : Error → Middleware S
  recovery_middleware e next c msg s = recovered e (next c msg s)
