-- ===== src/Kafka/Topics.antt =====
-- internal/platform/kafka/topic.go, but EventKey, which is Identity.Publisher's `event_key`.
use bookstore_golang.Base.{List, [], ◌∷◌}
use bookstore_golang.Base.Text.{Str, codes}

pub data Topic : Type 0 where
  order_events payment_events membership_events entitlement_events inventory_events : Topic
  shipment_events notification_cmds scheduler_cmds audit_events reporting_events : Topic
  dlq_general : Topic

-- The name of a topic on the broker.
unfoldable pub topic_name : Topic → Str
topic_name order_events = codes "order.events.v1"
topic_name payment_events = codes "payment.events.v1"
topic_name membership_events = codes "membership.events.v1"
topic_name entitlement_events = codes "entitlement.events.v1"
topic_name inventory_events = codes "inventory.events.v1"
topic_name shipment_events = codes "shipment.events.v1"
topic_name notification_cmds = codes "notification.commands.v1"
topic_name scheduler_cmds = codes "scheduler.commands.v1"
topic_name audit_events = codes "audit.events.v1"
topic_name reporting_events = codes "reporting.events.v1"
topic_name dlq_general = codes "dlq.general.v1"

abbrev pub topic_key_strategy : List (Topic × Str)
topic_key_strategy =
    (order_events, codes "order_id")
    ∷ (payment_events, codes "order_id or payment_id")
    ∷ (membership_events, codes "user_id")
    ∷ (entitlement_events, codes "user_id")
    ∷ (inventory_events, codes "book_id")
    ∷ (shipment_events, codes "shipment_id")
    ∷ (notification_cmds, codes "recipient or business_key")
    ∷ (scheduler_cmds, codes "command_key")
    ∷ (audit_events, codes "resource_id")
    ∷ (reporting_events, codes "business_key")
    ∷ []
