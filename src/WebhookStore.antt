-- ===== src/WebhookStore.antt =====
-- src/database/prisma/prisma-webhook-event.repository.ts. The table has a unique `id` and
-- `(provider, providerEventId)`, of one provider (prisma/schema/webhook.prisma).
use prestohq_assessment.Prelude.{
  ◌+◌, String, Bool, ◌||◌, Option, none, some, if◌then◌else◌, is_some, str_eq, find, update,
  append_row,
}
use prestohq_assessment.Errors.{unique_violation, record_missing}
use prestohq_assessment.Db.{
  State, Payload, WebhookEventEntity, WebhookEventStatus, received, processed, event_failed,
}
use prestohq_assessment.Exec.{Action, ok, err, gets}

pub record CreateWebhookEventData : Type 0 where
  pub event_type : String
  pub provider_event_id : String
  pub reference : Option String
  pub payload : Payload

abbrev pub event_by_id : String → WebhookEventEntity → Bool
event_by_id id e = str_eq e.id id

abbrev pub event_by_provider_id : String → WebhookEventEntity → Bool
event_by_provider_id id e = str_eq e.provider_event_id id

abbrev pub find_event : String → Action (Option WebhookEventEntity)
find_event id = gets (λ s. find (event_by_id id) s.webhook_events)

abbrev pub find_by_provider_event_id : String → Action (Option WebhookEventEntity)
find_by_provider_event_id id = gets (λ s. find (event_by_provider_id id) s.webhook_events)

abbrev pub new_event : CreateWebhookEventData → State → WebhookEventEntity
new_event d s = record {
  id = s.cuid s.next_id;
  event_type = d.event_type;
  provider_event_id = d.provider_event_id;
  reference = d.reference;
  payload = d.payload;
  status = received;
  processed_at = none;
  created_at = s.now;
}

-- `create`
unfoldable pub create_event : CreateWebhookEventData → Action WebhookEventEntity
create_event d s =
    if is_some (find (event_by_provider_id d.provider_event_id) s.webhook_events)
      || is_some (find (event_by_id (s.cuid s.next_id)) s.webhook_events)
    then (err unique_violation, s)
    else (
      ok (new_event d s),
      record s {
        webhook_events = append_row s.webhook_events (new_event d s);
        next_id = s.next_id + 1;
      },
    )

-- `markProcessed` and `markFailed`
unfoldable pub mark_event : WebhookEventStatus → String → Action (Unit {0})
mark_event status id s =
    if is_some (find (event_by_id id) s.webhook_events)
    then (
      ok tt,
      record s {
        webhook_events =
            update (event_by_id id) (λ e. record e { status = status; processed_at = some s.now })
              s.webhook_events;
      },
    )
    else (err record_missing, s)

abbrev pub mark_processed : String → Action (Unit {0})
mark_processed = mark_event processed

abbrev pub mark_failed : String → Action (Unit {0})
mark_failed = mark_event event_failed
