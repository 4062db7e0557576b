-- ===== src/Kafka/Group.antt =====
-- ConsumerGroup of internal/platform/kafka/consumer.go: its readers, the loops that run on them, and
-- its shutdown. Readers are numbered as they are made; the loop of a reader is Consumer's `consume`.
pub mod Closed
use bookstore_golang.Base.{
  ℕ, suc, Bool, true, false, ◌||◌, Option, none, some, List, [], ◌∷◌, ◌++◌, ◌==◌, Result, ok, err,
  if◌then◌else◌, map,
}
use bookstore_golang.Base.Int.{ℤ}
use bookstore_golang.Base.Text.{Str, str_eq}
use bookstore_golang.Errors.{Error, kafka_failed}
use bookstore_golang.Kafka.Settings.{Config}

-- `kafka.ReaderConfig`, but the constants
pub record ReaderConfig : Type 0 where
  pub brokers : List Str
  pub group_id : Str
  pub topic : Str
  pub max_wait : ℤ

-- A reader that was made, and the loop on it: its topic and its handler.
pub record Worker (H : Type 0) : Type 0 where
  pub reader : ℕ
  pub config : ReaderConfig
  pub handler : H

-- `readers` is the map from a topic to its reader; `workers` are the loops that were started.
pub record ConsumerGroup (H : Type 0) : Type 0 where
  pub cfg : Config
  pub readers : List (Str × ℕ)
  pub next : ℕ
  pub workers : List (Worker H)
  pub cancelled : Bool
  pub running : List ℕ
  pub closed : List ℕ

-- `m[topic] = reader`
unfoldable pub set_reader : Str → ℕ → List (Str × ℕ) → List (Str × ℕ)
set_reader topic reader [] = (topic, reader) ∷ []
set_reader topic reader ((t, r) ∷ m) =
    if t == topic then (topic, reader) ∷ m else (t, r) ∷ set_reader topic reader m

abbrev pub reader_config : Config → Str → ReaderConfig
reader_config cfg topic = record {
  brokers = cfg.brokers;
  group_id = cfg.consumer_group_id;
  topic = topic;
  max_wait = cfg.consumer_read_timeout;
}

-- Closes each of the readers; whether one of the calls fails is the service's choice.
unfoldable pub close_readers : (ℕ → Bool) → List (Str × ℕ) → List ℕ → Bool × List ℕ
close_readers fails [] closed = (false, closed)
close_readers fails ((t, r) ∷ m) closed =
    let rest = close_readers fails m (closed ++ (r ∷ [])) in
    (if fails r then true else rest.0, rest.1)

module _ {H : Type 0} where
  unfoldable pub new_consumer_group : Config → ConsumerGroup H
  new_consumer_group cfg = record {
    cfg = cfg;
    readers = [];
    next = 0;
    workers = [];
    cancelled = false;
    running = [];
    closed = [];
  }

  -- One round of the loop of `Register`.
  unfoldable pub register_topic : H → Str → ConsumerGroup H → ConsumerGroup H
  unfolding set_reader
  register_topic wrapped topic g = record g {
    readers = set_reader topic g.next g.readers;
    next = suc g.next;
    workers =
        g.workers
        ++ (record { reader = g.next; config = reader_config g.cfg topic; handler = wrapped } ∷ []);
    running = g.running ++ (g.next ∷ []);
  }

  -- `Register`, with the topics of the handler and the handler in its middlewares.
  unfoldable pub register : H → List Str → ConsumerGroup H → ConsumerGroup H
  unfolding register_topic
  register wrapped [] g = g
  register wrapped (topic ∷ topics) g = register wrapped topics (register_topic wrapped topic g)

  -- `Close`: the loops that were waited for have ended. `range` is the order in which Go visits the
  -- map.
  unfoldable pub close :
      (List (Str × ℕ) → List (Str × ℕ))
      → (ℕ → Bool)
      → ConsumerGroup H
      → Result Error (Unit {0}) × ConsumerGroup H
  unfolding close_readers
  close range fails g =
      let r = close_readers fails (range g.readers) g.closed in
      (
        if r.0 then err kafka_failed else ok tt,
        record g { cancelled = true; running = []; closed = r.1 },
      )
