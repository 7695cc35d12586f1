-- ===== src/Payouts/Soundness.antt =====
-- The workers of bank withdrawals keep what the database transactions keep.
use prestohq_assessment.Prelude.{String, refl, Option, none, some, find, or_else}
use prestohq_assessment.Prelude.Text.{truthy}
use prestohq_assessment.Db.{State, WithdrawalEntity}
use prestohq_assessment.Exec.{pure, lift, ◌>>◌}
use prestohq_assessment.Keeping.{Keeps, bind-Keeps, then-Keeps, if-Keeps, lift-Keeps}
use prestohq_assessment.Journal.{Rows}
use prestohq_assessment.Journal.Balance.{InJournal}
use prestohq_assessment.Ledger.{post_reversal_credit}
use prestohq_assessment.WithdrawalStore.Transactions.{IsKeptByCalls}
use prestohq_assessment.WithdrawalStore.Writes.{update_withdrawal-Keeps}
use prestohq_assessment.WithdrawalStore.Rows.{
  UpdateWithdrawalProviderData, withdrawal_by_id, update_withdrawal,
}
use prestohq_assessment.Provider.{
  FlutterwaveProvider, BankTransferResult, BankStatus, bank_successful, bank_pending, bank_failed,
  bank_unknown,
}
use prestohq_assessment.Payouts.{
  is_terminal, goes_to_bank, reversal_input, reverse_and_fail, enqueue_settle, after_initiate,
  bank_params, pay_out, payout_found, process_payout, settle_failed, after_status, settle_transfer,
  settle_found, process_settle,
}

module _ (Q : Rows → Type 0) (kept : IsKeptByCalls Q) where
  -- An update of a withdrawal's row, and nothing after it
  updated-Keeps :
      (id : String) (d : UpdateWithdrawalProviderData)
      → Keeps (InJournal Q) (update_withdrawal id d >> pure tt)
  updated-Keeps id d =
      then-Keeps (InJournal Q) (update_withdrawal id d) (pure tt) (update_withdrawal-Keeps Q id d)
        (λ s h. h)

  reverse_and_fail-Keeps :
      (w : WithdrawalEntity) (debit_id : String) → Keeps (InJournal Q) (reverse_and_fail w debit_id)
  unfolding reverse_and_fail
  reverse_and_fail-Keeps w debit_id =
      bind-Keeps (InJournal Q) (post_reversal_credit (reversal_input w debit_id)) _
        (kept.reversal (reversal_input w debit_id) refl) (λ reversal. updated-Keeps w.id _)

  awaited-Keeps :
      (id : String) (d : UpdateWithdrawalProviderData)
      → Keeps (InJournal Q) (update_withdrawal id d >> enqueue_settle id)
  awaited-Keeps id d =
      then-Keeps (InJournal Q) (update_withdrawal id d) (enqueue_settle id)
        (update_withdrawal-Keeps Q id d) (λ s h. h)

  after_initiate-Keeps :
      (b : BankStatus) (w : WithdrawalEntity) (r : BankTransferResult)
      → Keeps (InJournal Q) (after_initiate b w r)
  unfolding after_initiate
  after_initiate-Keeps bank_failed w r =
      reverse_and_fail-Keeps w (or_else w.debit_transaction_id "")
  after_initiate-Keeps bank_successful w r = updated-Keeps w.id _
  after_initiate-Keeps bank_pending w r = awaited-Keeps w.id _
  after_initiate-Keeps bank_unknown w r = awaited-Keeps w.id _

  pay_out-Keeps :
      (flutterwave : FlutterwaveProvider) (w : WithdrawalEntity)
      → Keeps (InJournal Q) (pay_out flutterwave w)
  pay_out-Keeps flutterwave w =
      bind-Keeps (InJournal Q) (lift (flutterwave.initiate_bank_transfer (bank_params w))) _
        (lift-Keeps (InJournal Q) (flutterwave.initiate_bank_transfer (bank_params w)))
        (λ r. after_initiate-Keeps r.status w r)

  payout_found-Keeps :
      (flutterwave : FlutterwaveProvider) (o : Option WithdrawalEntity)
      → Keeps (InJournal Q) (payout_found flutterwave o)
  payout_found-Keeps flutterwave none = λ s h. h
  payout_found-Keeps flutterwave (some w) =
      if-Keeps (InJournal Q) (is_terminal w.status) (pure tt) _ (λ s h. h)
        (if-Keeps (InJournal Q) (goes_to_bank w.destination_type) (pay_out flutterwave w) (pure tt)
          (pay_out-Keeps flutterwave w) (λ s h. h))

  pub process_payout-Keeps :
      (flutterwave : FlutterwaveProvider) (id : String) (s : State)
      → Q s.journal
      → Q (process_payout flutterwave id s).1.journal
  unfolding process_payout
  process_payout-Keeps flutterwave id s h =
      payout_found-Keeps flutterwave (find (withdrawal_by_id id) s.withdrawals) s h

  settle_failed-Keeps :
      (w : WithdrawalEntity) (o : Option String) → Keeps (InJournal Q) (settle_failed w o)
  settle_failed-Keeps w none = λ s h. h
  settle_failed-Keeps w (some debit_id) =
      if-Keeps (InJournal Q) (truthy debit_id) (reverse_and_fail w debit_id) (pure tt)
        (reverse_and_fail-Keeps w debit_id) (λ s h. h)

  after_status-Keeps :
      (b : BankStatus) (w : WithdrawalEntity) → Keeps (InJournal Q) (after_status b w)
  unfolding after_status
  after_status-Keeps bank_successful w = updated-Keeps w.id _
  after_status-Keeps bank_failed w = settle_failed-Keeps w w.debit_transaction_id
  after_status-Keeps bank_pending w = λ s h. h
  after_status-Keeps bank_unknown w = λ s h. h

  settle_transfer-Keeps :
      (flutterwave : FlutterwaveProvider) (w : WithdrawalEntity) (o : Option String)
      → Keeps (InJournal Q) (settle_transfer flutterwave w o)
  settle_transfer-Keeps flutterwave w none = λ s h. h
  settle_transfer-Keeps flutterwave w (some transfer_id) =
      if-Keeps (InJournal Q) (truthy transfer_id) _ (pure tt)
        (bind-Keeps (InJournal Q) (lift (flutterwave.get_bank_transfer_status transfer_id)) _
          (lift-Keeps (InJournal Q) (flutterwave.get_bank_transfer_status transfer_id))
          (λ r. after_status-Keeps r.status w))
        (λ s h. h)

  settle_found-Keeps :
      (flutterwave : FlutterwaveProvider) (o : Option WithdrawalEntity)
      → Keeps (InJournal Q) (settle_found flutterwave o)
  settle_found-Keeps flutterwave none = λ s h. h
  settle_found-Keeps flutterwave (some w) =
      if-Keeps (InJournal Q) (is_terminal w.status) (pure tt)
        (settle_transfer flutterwave w w.provider_transfer_id) (λ s h. h)
        (settle_transfer-Keeps flutterwave w w.provider_transfer_id)

  pub process_settle-Keeps :
      (flutterwave : FlutterwaveProvider) (id : String) (s : State)
      → Q s.journal
      → Q (process_settle flutterwave id s).1.journal
  unfolding process_settle
  process_settle-Keeps flutterwave id s h =
      settle_found-Keeps flutterwave (find (withdrawal_by_id id) s.withdrawals) s h
