-- ===== src/TransferComplete.antt =====
-- src/modules/transfers/services/transfer-complete.service.ts, and the worker that calls it,
-- src/modules/transfers/processors/transfer-complete.processor.ts.
use prestohq_assessment.Prelude.{
  String, Bool, not, ◌&&◌, ◌||◌, Option, none, some, ◌==◌, str_eq, find, if◌then◌else◌, is_some,
}
use prestohq_assessment.Prelude.Text.{truthy}
use prestohq_assessment.Errors.{
  Error, custom_error, bad_request, unprocessable_entity, internal_server_error,
}
use prestohq_assessment.Db.{
  Job, Payload, PayloadData, TransferEntity, TransferStatus, transfer_successful, transfer_failed,
  WebhookEventEntity, WalletTransactionEntity,
}
use prestohq_assessment.Exec.{Action, pure, raise, lift, when, ◌>>=◌, ◌>>◌}
use prestohq_assessment.Journal.{Rows, find_by_transfer_id, is_credit, is_pending, is_successful}
use prestohq_assessment.Ledger.{complete_credit_successful}
use prestohq_assessment.TransferStore.{
  UpdateTransferData, find_by_flutterwave_tx_ref, update_transfer,
}
use prestohq_assessment.WebhookStore.{find_event, mark_processed, mark_failed}
use prestohq_assessment.Provider.{
  FlutterwaveProvider, VerifyPaymentResult, PaymentStatus, payment_successful, payment_failed,
  payment_pending, payment_unknown,
}
use prestohq_assessment.Transfers.{string_or, is_processed}

abbrev nested_tx_ref : Option PayloadData → Option String
nested_tx_ref none = none
nested_tx_ref (some d) = string_or d.tx_ref none

-- `extractTxRef`
unfoldable pub extract_tx_ref : Payload → Option String
extract_tx_ref body = elim (nested_tx_ref body.data_object) [
  | some r ↦ some r
  | none ↦ string_or body.tx_ref_camel (string_or body.tx_ref none)
]

-- `event.reference || this.extractTxRef(event.payload)`, where an empty text counts as none
unfoldable pub tx_ref_of : WebhookEventEntity → Option String
unfolding extract_tx_ref
tx_ref_of e = elim e.reference [
  | some r ↦ if truthy r then some r else extract_tx_ref e.payload
  | none ↦ extract_tx_ref e.payload
]

abbrev pub no_update : UpdateTransferData
no_update = record { status = none; flutterwave_id = none; checkout_url = none }

abbrev pub is_pending_credit : WalletTransactionEntity → Bool
is_pending_credit c = is_credit c.type && is_pending c.status

abbrev pub is_successful_credit : WalletTransactionEntity → Bool
is_successful_credit c = is_credit c.type && is_successful c.status

abbrev pub amount_ok : VerifyPaymentResult → TransferEntity → Bool
amount_ok v t = (v.amount_kobo == 0 || v.amount_kobo == t.amount) && str_eq v.currency t.currency

abbrev pub mismatch : Error
mismatch = custom_error unprocessable_entity "Verified payment amount/currency mismatch"

abbrev pub credit_missing : Error
credit_missing = custom_error internal_server_error "Pending credit journal missing for transfer"

abbrev pub credit_pending_row :
    String → TransferEntity → Option WalletTransactionEntity → Action (Unit {0})
credit_pending_row event_id t none = do mark_failed event_id; raise credit_missing
credit_pending_row event_id t (some pending) = do
  complete_credit_successful
      (record { transaction_id = pending.id; expected_wallet_id = t.wallet_id })
  pure tt

-- `if (!already) { ... }`, on the credits of the transfer
unfoldable pub credit_once : String → TransferEntity → Rows → Action (Unit {0})
credit_once event_id t credits =
    when (not (is_some (find is_successful_credit credits)))
      (credit_pending_row event_id t (find is_pending_credit credits))

-- From the verified payment on
unfoldable pub complete_verified : String → TransferEntity → VerifyPaymentResult → Action (Unit {0})
complete_verified event_id t v = do
  when (not (amount_ok v t)) (mark_failed event_id >> raise mismatch)
  credits ← find_by_transfer_id t.id
  credit_once event_id t credits
  update_transfer t.id (record no_update {
    status = some transfer_successful;
    flutterwave_id =
        some (elim v.provider_transaction_id [ none ↦ t.flutterwave_id | some i ↦ some i ]);
  })
  mark_processed event_id

abbrev pub complete_by_status :
    PaymentStatus → String → TransferEntity → VerifyPaymentResult → Action (Unit {0})
complete_by_status payment_successful event_id t v = complete_verified event_id t v
complete_by_status payment_failed event_id t v = do
  update_transfer t.id (record no_update { status = some transfer_failed })
  mark_processed event_id
complete_by_status payment_pending event_id t v = pure tt
complete_by_status payment_unknown event_id t v = pure tt

abbrev pub complete_unless_done :
    FlutterwaveProvider → TransferStatus → String → String → TransferEntity → Action (Unit {0})
complete_unless_done flutterwave transfer_successful event_id tx_ref t = mark_processed event_id
complete_unless_done flutterwave _ event_id tx_ref t = do
  verified ← lift (flutterwave.verify_by_tx_ref tx_ref)
  complete_by_status verified.status event_id t verified

abbrev pub complete_transfer :
    FlutterwaveProvider → String → String → Option TransferEntity → Action (Unit {0})
complete_transfer flutterwave event_id tx_ref none = mark_failed event_id
complete_transfer flutterwave event_id tx_ref (some t) =
    complete_unless_done flutterwave t.status event_id tx_ref t

abbrev pub complete_tx_ref : FlutterwaveProvider → String → Option String → Action (Unit {0})
complete_tx_ref flutterwave event_id none = do
  mark_failed event_id
  raise (custom_error bad_request "Webhook missing tx_ref")
complete_tx_ref flutterwave event_id (some tx_ref) = do
  transfer ← find_by_flutterwave_tx_ref tx_ref
  complete_transfer flutterwave event_id tx_ref transfer

-- `if (!txRef)`: the empty text counts as missing.
abbrev pub nonempty : Option String → Option String
nonempty none = none
nonempty (some r) = if truthy r then some r else none

abbrev pub complete_event : FlutterwaveProvider → Option WebhookEventEntity → Action (Unit {0})
complete_event flutterwave none = pure tt
complete_event flutterwave (some e) =
    if is_processed e.status
    then pure tt
    else complete_tx_ref flutterwave e.id (nonempty (tx_ref_of e))

-- `completeFromWebhook`
unfoldable pub complete_from_webhook : FlutterwaveProvider → String → Action (Unit {0})
complete_from_webhook flutterwave event_id = do
  found ← find_event event_id
  complete_event flutterwave found

-- `TransferCompleteProcessor.process`
unfoldable pub process : FlutterwaveProvider → Job → Action (Unit {0})
process flutterwave job =
    when (str_eq job.name "complete") (complete_from_webhook flutterwave job.subject)
