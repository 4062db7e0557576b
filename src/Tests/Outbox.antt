-- ===== src/Tests/Outbox.antt =====
-- The outbox dispatcher.
use bookstore_golang.Base.{◌≡◌, refl, true, none, some, [], ◌∷◌, err, Action, any, pure}
use bookstore_golang.Base.Text.{codes}
use bookstore_golang.Errors.{Error, check_violation}
use bookstore_golang.Database.{World}
use bookstore_golang.Outbox.Model.{OutboxEvent, RecordParams, State-discrete}
use bookstore_golang.Outbox.Recorder.{event_of}
use bookstore_golang.Outbox.Dispatcher.{is_pending, dispatch_once}
use bookstore_golang.Outbox.Dispatcher.Stuck.{dispatch_once_refused}
use bookstore_golang.Tests.Data.{store, world, context}

abbrev params : RecordParams
params = record {
  topic = codes "notification.commands.v1";
  event_key = codes "user:2";
  aggregate_type = codes "user";
  aggregate_id = some (codes "2");
  event_type = codes "user.registered";
  occurred_at = 90;
  trace_id = [];
  correlation_id = [];
  causation_id = [];
  actor_type = [];
  actor_id = none;
  schema_version = 1;
  idempotency_key = [];
  payload = [];
}

abbrev waiting : World store
waiting = record (world []) {
  db = record ((world []).db) { outbox_events = event_of (codes "e1") params 90 ∷ [] };
}

abbrev deliver_all : OutboxEvent → Action (World store) Error (Unit {0})
deliver_all e = pure tt

waiting_pending : any is_pending waiting.db.outbox_events ≡ true
unfolding any event_of State-discrete
waiting_pending = refl

dispatch_once_refused_example :
    dispatch_once deliver_all (λ e. []) context 10 waiting
    ≡ (err check_violation, record waiting { ids = 2 })
dispatch_once_refused_example =
    dispatch_once_refused deliver_all (λ e. []) context 9 waiting refl refl waiting_pending
