-- ===== src/System/Completing.antt =====
-- The worker that completes a funding keeps what the database transactions keep.
use prestohq_assessment.Prelude.{List, String, not, Option, none, some, find, is_some}
use prestohq_assessment.Db.{
  WithdrawalEntity, TransferEntity, TransferStatus, transfer_initiated, transfer_pending,
  transfer_successful, transfer_failed, WebhookEventEntity, WalletTransactionEntity,
}
use prestohq_assessment.Exec.{pure, raise, lift, when, ◌>>=◌, ◌>>◌}
use prestohq_assessment.Keeping.{Keeps, bind-Keeps, then-Keeps, when-Keeps, if-Keeps, lift-Keeps}
use prestohq_assessment.Journal.{Rows}
use prestohq_assessment.Journal.Balance.{InTables}
use prestohq_assessment.Ledger.{complete_credit_successful}
use prestohq_assessment.WithdrawalStore.Transactions.{IsKeptByRequests}
use prestohq_assessment.TransferStore.{transfer_by_tx_ref, update_transfer, UpdateTransferData}
use prestohq_assessment.WebhookStore.{event_by_id, mark_processed, mark_failed}
use prestohq_assessment.Provider.{
  FlutterwaveProvider, VerifyPaymentResult, PaymentStatus, payment_successful, payment_failed,
  payment_pending, payment_unknown,
}
use prestohq_assessment.Transfers.{is_processed}
use prestohq_assessment.TransferComplete.{
  amount_ok, mismatch, is_successful_credit, is_pending_credit, credit_pending_row, credit_once,
  complete_verified, complete_by_status, complete_unless_done, complete_transfer, complete_tx_ref,
  nonempty, tx_ref_of, complete_event, complete_from_webhook,
}
use prestohq_assessment.System.Stores.{update_transfer-Keeps, mark_event-Keeps}

module _ (Q : Rows → List WithdrawalEntity → Type 0) (kept : IsKeptByRequests Q) where
  credit_pending_row-Keeps :
      (event_id : String) (t : TransferEntity) (o : Option WalletTransactionEntity)
      → Keeps (InTables Q) (credit_pending_row event_id t o)
  credit_pending_row-Keeps event_id t none =
      then-Keeps (InTables Q) (mark_failed event_id) _ (mark_event-Keeps Q _ event_id) (λ s h. h)
  credit_pending_row-Keeps event_id t (some row) =
      bind-Keeps (InTables Q)
        (complete_credit_successful
          (record { transaction_id = row.id; expected_wallet_id = t.wallet_id }))
        _ (kept.complete (record { transaction_id = row.id; expected_wallet_id = t.wallet_id }))
        (λ _ s h. h)

  credit_once-Keeps :
      (event_id : String) (t : TransferEntity) (rows : Rows)
      → Keeps (InTables Q) (credit_once event_id t rows)
  unfolding credit_once
  credit_once-Keeps event_id t rows =
      when-Keeps (InTables Q) (not (is_some (find is_successful_credit rows)))
        (credit_pending_row event_id t (find is_pending_credit rows))
        (credit_pending_row-Keeps event_id t (find is_pending_credit rows))

  -- The last two writes of a completion
  closed-Keeps :
      (event_id id : String) (d : UpdateTransferData)
      → Keeps (InTables Q) (update_transfer id d >> mark_processed event_id)
  closed-Keeps event_id id d =
      then-Keeps (InTables Q) (update_transfer id d) (mark_processed event_id)
        (update_transfer-Keeps Q id d) (mark_event-Keeps Q _ event_id)

  complete_verified-Keeps :
      (event_id : String) (t : TransferEntity) (v : VerifyPaymentResult)
      → Keeps (InTables Q) (complete_verified event_id t v)
  unfolding complete_verified
  complete_verified-Keeps event_id t v =
      then-Keeps (InTables Q) (when (not (amount_ok v t)) (mark_failed event_id >> raise mismatch))
        _
        (when-Keeps (InTables Q) (not (amount_ok v t)) (mark_failed event_id >> raise mismatch) (
          then-Keeps (InTables Q) (mark_failed event_id) _ (mark_event-Keeps Q _ event_id)
            (λ s h. h)))
        (λ s h.
          then-Keeps (InTables Q) (credit_once event_id t _) _ (credit_once-Keeps event_id t _)
            (closed-Keeps event_id t.id _) s h)

  complete_by_status-Keeps :
      (b : PaymentStatus) (event_id : String) (t : TransferEntity) (v : VerifyPaymentResult)
      → Keeps (InTables Q) (complete_by_status b event_id t v)
  complete_by_status-Keeps payment_successful event_id t v = complete_verified-Keeps event_id t v
  complete_by_status-Keeps payment_failed event_id t v = closed-Keeps event_id t.id _
  complete_by_status-Keeps payment_pending event_id t v = λ s h. h
  complete_by_status-Keeps payment_unknown event_id t v = λ s h. h

  module _ (flutterwave : FlutterwaveProvider) where
    verified-Keeps :
        (event_id tx_ref : String) (t : TransferEntity)
        → Keeps (InTables Q) (
            lift (flutterwave.verify_by_tx_ref tx_ref) >>= λ v.
            complete_by_status v.status event_id t v)
    verified-Keeps event_id tx_ref t =
        bind-Keeps (InTables Q) (lift (flutterwave.verify_by_tx_ref tx_ref)) _
          (lift-Keeps (InTables Q) (flutterwave.verify_by_tx_ref tx_ref))
          (λ v. complete_by_status-Keeps v.status event_id t v)

    complete_unless_done-Keeps :
        (b : TransferStatus) (event_id tx_ref : String) (t : TransferEntity)
        → Keeps (InTables Q) (complete_unless_done flutterwave b event_id tx_ref t)
    complete_unless_done-Keeps transfer_successful event_id tx_ref t = mark_event-Keeps Q _ event_id
    complete_unless_done-Keeps transfer_initiated event_id tx_ref t =
        verified-Keeps event_id tx_ref t
    complete_unless_done-Keeps transfer_pending event_id tx_ref t = verified-Keeps event_id tx_ref t
    complete_unless_done-Keeps transfer_failed event_id tx_ref t = verified-Keeps event_id tx_ref t

    complete_transfer-Keeps :
        (event_id tx_ref : String) (o : Option TransferEntity)
        → Keeps (InTables Q) (complete_transfer flutterwave event_id tx_ref o)
    complete_transfer-Keeps event_id tx_ref none = mark_event-Keeps Q _ event_id
    complete_transfer-Keeps event_id tx_ref (some t) =
        complete_unless_done-Keeps t.status event_id tx_ref t

    complete_tx_ref-Keeps :
        (event_id : String) (o : Option String)
        → Keeps (InTables Q) (complete_tx_ref flutterwave event_id o)
    complete_tx_ref-Keeps event_id none =
        then-Keeps (InTables Q) (mark_failed event_id) _ (mark_event-Keeps Q _ event_id) (λ s h. h)
    complete_tx_ref-Keeps event_id (some tx_ref) = λ s h.
        complete_transfer-Keeps event_id tx_ref (find (transfer_by_tx_ref tx_ref) s.transfers) s h

    complete_event-Keeps :
        (o : Option WebhookEventEntity) → Keeps (InTables Q) (complete_event flutterwave o)
    complete_event-Keeps none = λ s h. h
    complete_event-Keeps (some e) =
        if-Keeps (InTables Q) (is_processed e.status) (pure tt) _ (λ s h. h)
          (complete_tx_ref-Keeps e.id (nonempty (tx_ref_of e)))

    pub complete_from_webhook-Keeps :
        (event_id : String) → Keeps (InTables Q) (complete_from_webhook flutterwave event_id)
    unfolding complete_from_webhook
    complete_from_webhook-Keeps event_id s h =
        complete_event-Keeps (find (event_by_id event_id) s.webhook_events) s h
