-- ===== src/System/Credited.antt =====
-- A paid deposit arrives: the completion job of transfer-complete.service.ts, when nothing is in its way.
use prestohq_assessment.Prelude.{
  String, ◌≡◌, true, false, none, some, find, update, select, find-update_self, eq_refl,
}
use prestohq_assessment.Prelude.Int.{pos, ◌+ℤ◌}
use prestohq_assessment.Db.{
  State, TransferEntity, transfer_pending, transfer_successful, WebhookEventEntity, processed,
  WalletTransactionEntity, tx_pending,
}
use prestohq_assessment.Exec.{ok}
use prestohq_assessment.Journal.{balance, for_transfer, is_credit}
use prestohq_assessment.Ledger.{CompleteCreditInput}
use prestohq_assessment.Ledger.Completion.{
  Names, completed, completion_share, balance-completed, found_by_own_id,
}
use prestohq_assessment.Ledger.Recompletion.{complete_accepted}
use prestohq_assessment.TransferStore.{
  UpdateTransferData, transfer_by_id, transfer_by_tx_ref, update_transfer, apply_transfer_update,
}
use prestohq_assessment.WebhookStore.{event_by_id, mark_event, mark_processed}
use prestohq_assessment.Provider.{FlutterwaveProvider, VerifyPaymentResult, payment_successful}
use prestohq_assessment.Transfers.{is_processed}
use prestohq_assessment.TransferComplete.{
  amount_ok, is_successful_credit, is_pending_credit, credit_once, complete_verified, nonempty,
  tx_ref_of, no_update, complete_from_webhook,
}

module _ (flutterwave : FlutterwaveProvider) (s : State) (e : WebhookEventEntity)
    (t : TransferEntity) (v : VerifyPaymentResult) (row : WalletTransactionEntity)
    (tx_ref : String) where
  abbrev pub completion : CompleteCreditInput
  completion = record { transaction_id = row.id; expected_wallet_id = t.wallet_id }

  -- An event that is not processed and names a pending transfer, whose payment the provider reports as
  -- successful at its amount or at 0, and whose pending credit waits in the journal for an existing wallet.
  pub record AcceptsDeposit : Type 0 where
    pub stored_event : find (event_by_id e.id) s.webhook_events ≡ some e
    pub unprocessed : is_processed e.status ≡ false
    pub named : nonempty (tx_ref_of e) ≡ some tx_ref
    pub stored_transfer : find (transfer_by_tx_ref tx_ref) s.transfers ≡ some t
    pub by_own_id : find (transfer_by_id t.id) s.transfers ≡ some t
    pub pending : t.status ≡ transfer_pending
    pub verified : flutterwave.verify_by_tx_ref tx_ref ≡ ok v
    pub paid : v.status ≡ payment_successful
    pub right_amount : amount_ok v t ≡ true
    pub uncredited : find is_successful_credit (select (for_transfer t.id) s.journal) ≡ none
    pub awaiting : find is_pending_credit (select (for_transfer t.id) s.journal) ≡ some row
    pub credits_wallet : Names completion s row
    pub is_awaiting : row.status ≡ tx_pending
    pub a_credit : is_credit row.type ≡ true

  abbrev pub last_update : UpdateTransferData
  last_update = record no_update {
    status = some transfer_successful;
    flutterwave_id =
        some (elim v.provider_transaction_id [ none ↦ t.flutterwave_id | some i ↦ some i ]);
  }

  abbrev pub close : WebhookEventEntity → WebhookEventEntity
  close x = record x { status = processed; processed_at = some s.now }

  -- The state after the job
  abbrev pub arrived : State
  arrived = record (completed row.id s) {
    transfers = update (transfer_by_id t.id) (apply_transfer_update last_update) s.transfers;
    webhook_events = update (event_by_id e.id) close s.webhook_events;
  }

  module _ (h : AcceptsDeposit) where
    credit_once_done :
        credit_once e.id t (select (for_transfer t.id) s.journal) s ≡ (ok tt, completed row.id s)
    unfolding credit_once
    credit_once_done = simp (
      h.uncredited,
      h.awaiting,
      complete_accepted completion s row h.credits_wallet h.is_awaiting,
    )

    abbrev updated : State
    updated = record (completed row.id s) {
      transfers = update (transfer_by_id t.id) (apply_transfer_update last_update) s.transfers;
    }

    updated_done :
        update_transfer t.id last_update (completed row.id s)
        ≡ (ok (apply_transfer_update last_update t), updated)
    unfolding update_transfer
    updated_done = rw (h.by_own_id, update_transfer)

    closed_done : mark_processed e.id updated ≡ (ok tt, arrived)
    unfolding mark_event
    closed_done = rw (h.stored_event, mark_event)

    complete_verified_done : complete_verified e.id t v s ≡ (ok tt, arrived)
    unfolding complete_verified
    complete_verified_done = rw (h.right_amount, credit_once_done, updated_done, closed_done)

    complete_from_webhook_done : complete_from_webhook flutterwave e.id s ≡ (ok tt, arrived)
    unfolding complete_from_webhook
    complete_from_webhook_done = simp (
      h.stored_event, h.unprocessed, h.named, h.stored_transfer, h.pending, h.verified, h.paid,
      complete_verified_done,
    )

  -- What the depositor sees after the job
  pub record Arrives : Type 0 where
    pub succeeds : complete_from_webhook flutterwave e.id s ≡ (ok tt, arrived)
    pub credited :
        (w : String)
        → balance w arrived.journal ≡ balance w s.journal +ℤ pos (completion_share row w)
    pub transfer_done :
        find (transfer_by_id t.id) arrived.transfers ≡ some (apply_transfer_update last_update t)
    pub event_done : find (event_by_id e.id) arrived.webhook_events ≡ some (close e)

-- When a stored event that is not processed names a pending transfer, the provider reports its payment as
-- successful at its amount or at 0, and its one pending credit waits in the journal for an existing wallet, the
-- completion job succeeds: the wallet of the credit, and no other, gets its amount, the transfer is
-- stored as SUCCESSFUL and the event as PROCESSED.
pub paid_deposit_arrives :
    (flutterwave : FlutterwaveProvider) (s : State) (e : WebhookEventEntity) (t : TransferEntity)
    (v : VerifyPaymentResult) (row : WalletTransactionEntity) (tx_ref : String)
    → AcceptsDeposit flutterwave s e t v row tx_ref
    → Arrives flutterwave s e t v row tx_ref
paid_deposit_arrives flutterwave s e t v row tx_ref h = record {
  succeeds = complete_from_webhook_done flutterwave s e t v row tx_ref h;
  credited = λ w.
      balance-completed s row
        (found_by_own_id (completion flutterwave s e t v row tx_ref) s row h.credits_wallet)
        h.is_awaiting w h.a_credit;
  transfer_done =
      find-update_self (transfer_by_id t.id)
        (apply_transfer_update (last_update flutterwave s e t v row tx_ref)) s.transfers t
        h.by_own_id (eq_refl t.id);
  event_done =
      find-update_self (event_by_id e.id) (close flutterwave s e t v row tx_ref) s.webhook_events e
        h.stored_event (eq_refl e.id);
}
