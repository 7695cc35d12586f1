-- ===== src/Transfers/Webhook.antt =====
-- src/modules/transfers/services/transfer-webhook.service.ts: the reception of a webhook.
use Prim.Native.String.{◌++◌}
use prestohq_assessment.Prelude.{
  String, Bool, true, false, not, Option, none, some, or_else, append_row,
}
use prestohq_assessment.Errors.{custom_error, bad_request, unauthorized}
use prestohq_assessment.Db.{
  JsValue, text, number, other, Payload, PayloadData, WebhookEventEntity, WebhookEventStatus,
  received, processed, event_failed,
}
use prestohq_assessment.Exec.{Action, pure, raise_if, or_raise, modify, when, ◌>>=◌, ◌>>◌}
use prestohq_assessment.WebhookStore.{
  CreateWebhookEventData, find_by_provider_event_id, create_event,
}
use prestohq_assessment.Provider.{FlutterwaveProvider}

-- `typeof v === 'string' ? v : ...`
abbrev pub string_or : JsValue → Option String → Option String
string_or (text t) rest = some t
string_or (number _) rest = rest
string_or other rest = rest

abbrev pub empty_data : PayloadData
empty_data = record { id = other; tx_ref = other; tx_ref_camel = other }

abbrev pub webhook_data : Payload → PayloadData
webhook_data body = or_else body.data_object empty_data

abbrev pub webhook_tx_ref : Payload → Option String
webhook_tx_ref body =
    string_or (webhook_data body).tx_ref (string_or (webhook_data body).tx_ref_camel none)

-- `requireProviderEventId`
unfoldable pub provider_event_id : JsValue → JsValue → Option String
provider_event_id (text i) _ = some ("flw-" ++ i)
provider_event_id (number i) _ = some ("flw-" ++ i)
provider_event_id other (text i) = some ("flw-" ++ i)
provider_event_id other (number i) = some ("flw-" ++ i)
provider_event_id other other = none

abbrev pub enqueue_complete : String → Action (Unit {0})
enqueue_complete event_id = modify (λ s. record s {
  transfer_queue =
      append_row s.transfer_queue (record {
        name = "complete";
        subject = event_id;
        job_id = "transfer-complete-" ++ event_id;
      });
})

abbrev pub is_processed : WebhookEventStatus → Bool
is_processed received = false
is_processed processed = true
is_processed event_failed = false

abbrev pub received_data : Payload → String → CreateWebhookEventData
received_data body event_id = record {
  event_type = or_else (string_or body.event none) "charge.completed";
  provider_event_id = event_id;
  reference = webhook_tx_ref body;
  payload = body;
}

abbrev pub receive : Payload → String → Option WebhookEventEntity → Action String
receive body event_id (some existing) = do
  when (not (is_processed existing.status)) (enqueue_complete existing.id)
  pure existing.id
receive body event_id none = do
  created ← create_event (received_data body event_id)
  enqueue_complete created.id
  pure created.id

-- `TransferWebhookService.handleFlutterwaveWebhook`; its result is the event's identifier.
unfoldable pub handle_flutterwave_webhook :
    FlutterwaveProvider → Option String → Payload → Action String
handle_flutterwave_webhook flutterwave verif_hash body = do
  raise_if (not (flutterwave.verify_webhook_signature verif_hash))
      (custom_error unauthorized "Invalid Flutterwave webhook signature")
  event_id ←
      or_raise (provider_event_id (webhook_data body).id body.id)
        (custom_error bad_request "Flutterwave webhook missing provider event id (data.id)")
  existing ← find_by_provider_event_id event_id
  receive body event_id existing
