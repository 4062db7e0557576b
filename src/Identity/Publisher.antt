-- ===== src/Identity/Publisher.antt =====
-- internal/modules/identity/infra/adapters/outbox_event_publisher.go, with the topic and the key of
-- internal/platform/kafka/topic.go and the names of domain/event/event.go.
use bookstore_golang.Base.{ℕ, none, some, [], ◌∷◌, ◌++◌, ◌==◌, Action, ◌>>=◌, ◌>>◌, not, guard}
use bookstore_golang.Base.Text.{Str, codes, str_eq}
use bookstore_golang.Errors.{Error, empty_token}
use bookstore_golang.Platform.Redis.{Redis}
use bookstore_golang.Database.{Context, World, now_of}
use bookstore_golang.Outbox.Model.{RecordParams, Payload, number, text}
use bookstore_golang.Outbox.Recorder.{record_event}
use bookstore_golang.Identity.Library.{Library}

abbrev pub topic_notification_cmds : Str
topic_notification_cmds = codes "notification.commands.v1"

abbrev pub agg_user : Str
agg_user = codes "user"

abbrev pub event_key : Str → Str → Str
event_key agg_type agg_id = agg_type ++ (b':' ∷ agg_id)

abbrev pub register_event : Str
register_event = codes "user.registered"

abbrev pub reset_password_requested_event : Str
reset_password_requested_event = codes "user.reset_password_requested"

abbrev pub reset_password_completed_event : Str
reset_password_completed_event = codes "user.reset_password_completed"

-- The parameters of an event about a user.
unfoldable pub user_params : Context → Str → Str → Str → Payload → ℕ → RecordParams
user_params c agg_id event_type idempotency_key payload now = record {
  topic = topic_notification_cmds;
  event_key = event_key agg_user agg_id;
  aggregate_type = agg_user;
  aggregate_id = some agg_id;
  event_type = event_type;
  occurred_at = now;
  trace_id = c.request_id;
  correlation_id = c.request_id;
  causation_id = c.request_id;
  actor_type = [];
  actor_id = none;
  schema_version = 1;
  idempotency_key = idempotency_key;
  payload = payload;
}

abbrev pub token_payload : ℕ → Str → Str → Payload
token_payload user_id email token =
    (codes "user_id", number user_id)
    ∷ (codes "email", text email)
    ∷ (codes "token", text token)
    ∷ []

module _ {V : Type 0} {R : Redis V} (l : Library V) (c : Context) where
  unfoldable pub publish_user_registered : ℕ → Str → Str → Action (World R) Error (Unit {0})
  unfolding record_event user_params
  publish_user_registered user_id email token = do
    guard (not (token == [])) empty_token
    now ← now_of
    record_event l.uuid c (
        user_params c (l.format_int user_id) register_event c.idempotency_key
          (token_payload user_id email token) now)

  unfoldable pub publish_reset_password_completed : ℕ → Str → Action (World R) Error (Unit {0})
  unfolding record_event user_params
  publish_reset_password_completed user_id email = do
    now ← now_of
    record_event l.uuid c (
        user_params c (l.format_int user_id) reset_password_completed_event []
          ((codes "user_id", number user_id) ∷ (codes "email", text email) ∷ []) now)

  -- Its aggregate is named by the address.
  unfoldable pub publish_reset_password_requested :
      ℕ → Str → Str → Action (World R) Error (Unit {0})
  unfolding record_event user_params
  publish_reset_password_requested user_id email token = do
    guard (not (token == [])) empty_token
    now ← now_of
    record_event l.uuid c (
        user_params c email reset_password_requested_event c.idempotency_key
          (token_payload user_id email token) now)
