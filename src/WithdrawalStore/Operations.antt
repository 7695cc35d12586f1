-- ===== src/WithdrawalStore/Operations.antt =====
-- The services' calls around the transactions, with the reads and tests before them, keep what the
-- transactions keep.
use prestohq_assessment.Prelude.{
  List, String, inl, inr, Option, none, some, find, not, str_eq, ◌==◌,
}
use prestohq_assessment.Db.{WalletTransactionEntity, WithdrawalEntity}
use prestohq_assessment.Exec.{transaction}
use prestohq_assessment.Keeping.{Keeps, then-Keeps, guard-Keeps, rethrow-Keeps}
use prestohq_assessment.Journal.{Rows, by_id, by_key}
use prestohq_assessment.Journal.Keys.{IsOtherKey}
use prestohq_assessment.Journal.Balance.{InJournal, InTables}
use prestohq_assessment.Ledger.{
  PostCreditPendingInput, PostReversalInput, post_credit_pending, post_pending_new,
  post_reversal_credit, post_reversal_new, reversal_body, check_original, rethrow_wallet_missing,
}
use prestohq_assessment.Ledger.Reversals.{check_original-cases}
use prestohq_assessment.WithdrawalStore.Rows.{by_user_and_key}
use prestohq_assessment.WithdrawalStore.{
  ExecuteP2pWithdrawalData, ExecuteBankWithdrawalData, replay_existing, key_reused, rethrow_missing,
  p2p_body, p2p_new, execute_p2p, bank_body, bank_new, execute_bank_accept,
}
use prestohq_assessment.WithdrawalStore.Transactions.{IsKept, IsKeptByCalls, IsKeptByRequests}

module _ (Q : Rows → Type 0) (kept : IsKept Q) where
  check_original-Keeps :
      (i : PostReversalInput) (o : Option WalletTransactionEntity)
      → Keeps (InJournal Q) (check_original i o)
  check_original-Keeps i o s h = elim (check_original-cases i s o) [
    | inl (e, refused) ↦ rw refused h
    | inr (fits, _) ↦ rw fits h
  ]

  post_reversal_new-Keeps :
      (i : PostReversalInput) (o : Option WalletTransactionEntity)
      → Keeps (InJournal Q) (post_reversal_new i o)
  post_reversal_new-Keeps i none = λ s h.
      then-Keeps (InJournal Q) (check_original i (find (by_id i.original_debit_id) s.journal)) _
        (check_original-Keeps i (find (by_id i.original_debit_id) s.journal))
        (rethrow-Keeps (InJournal Q) (rethrow_wallet_missing i.wallet_id)
          (transaction (reversal_body i)) (kept.reversal i))
        s h
  post_reversal_new-Keeps i (some t) = λ s h. h

  post_reversal-Keeps : (i : PostReversalInput) → Keeps (InJournal Q) (post_reversal_credit i)
  unfolding post_reversal_credit
  post_reversal-Keeps i =
      guard-Keeps (InJournal Q) (i.amount == 0) _ _
        (λ s h. post_reversal_new-Keeps i (find (by_key i.idempotency_key) s.journal) s h)

  -- What the transactions keep, the calls of them keep.
  pub IsKept-IsKeptByCalls : IsKeptByCalls Q
  IsKept-IsKeptByCalls = record {
    pending = kept.pending;
    complete = kept.complete;
    reversal = λ i key. post_reversal-Keeps i;
    p2p = kept.p2p;
    bank = kept.bank;
  }

module _ (Q : Rows → List WithdrawalEntity → Type 0) (kept : IsKeptByRequests Q) where
  post_pending_new-Keeps :
      (i : PostCreditPendingInput) (o : Option WalletTransactionEntity)
      → IsOtherKey i.idempotency_key
      → Keeps (InTables Q) (post_pending_new i o)
  post_pending_new-Keeps i none other = kept.pending i other
  post_pending_new-Keeps i (some t) other = λ s h. h

  pub post_pending-Keeps :
      (i : PostCreditPendingInput)
      → IsOtherKey i.idempotency_key
      → Keeps (InTables Q) (post_credit_pending i)
  unfolding post_credit_pending
  post_pending-Keeps i other =
      guard-Keeps (InTables Q) (i.amount == 0) _ _
        (λ s h. post_pending_new-Keeps i (find (by_key i.idempotency_key) s.journal) other s h)

  replay-Keeps :
      (hash : String) (w : WithdrawalEntity) → Keeps (InTables Q) (replay_existing hash w)
  replay-Keeps hash w =
      guard-Keeps (InTables Q) (not (str_eq w.request_body_hash hash)) key_reused _ (λ s h. h)

  p2p_new-Keeps :
      (d : ExecuteP2pWithdrawalData) (o : Option WithdrawalEntity)
      → Keeps (InTables Q) (p2p_new d o)
  p2p_new-Keeps d none =
      rethrow-Keeps (InTables Q) rethrow_missing (transaction (p2p_body d)) (kept.p2p d)
  p2p_new-Keeps d (some w) = replay-Keeps d.request_body_hash w

  pub execute_p2p-Keeps : (d : ExecuteP2pWithdrawalData) → Keeps (InTables Q) (execute_p2p d)
  unfolding execute_p2p
  execute_p2p-Keeps d =
      λ s h. p2p_new-Keeps d (find (by_user_and_key d.user_id d.idempotency_key) s.withdrawals) s h

  bank_new-Keeps :
      (d : ExecuteBankWithdrawalData) (o : Option WithdrawalEntity)
      → Keeps (InTables Q) (bank_new d o)
  bank_new-Keeps d none =
      rethrow-Keeps (InTables Q) rethrow_missing (transaction (bank_body d)) (kept.bank d)
  bank_new-Keeps d (some w) = replay-Keeps d.request_body_hash w

  pub execute_bank-Keeps :
      (d : ExecuteBankWithdrawalData) → Keeps (InTables Q) (execute_bank_accept d)
  unfolding execute_bank_accept
  execute_bank-Keeps d =
      λ s h. bank_new-Keeps d (find (by_user_and_key d.user_id d.idempotency_key) s.withdrawals) s h
