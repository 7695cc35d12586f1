-- ===== src/Ledger/Aside.antt =====
-- The ledger's transactions leave the withdrawals alone.
use prestohq_assessment.Prelude.{String, inl, inr, Option, none, some, List, find}
use prestohq_assessment.Db.{State, WalletTransactionEntity, WithdrawalEntity}
use prestohq_assessment.Exec.{transaction}
use prestohq_assessment.Keeping.{Keeps, bind-Keeps, then-Keeps, transaction-Keeps}
use prestohq_assessment.Journal.{CreateWalletTransactionData, by_key, insert, lock_wallet}
use prestohq_assessment.Journal.Balance.{insert-cases, lock_wallet-cases}
use prestohq_assessment.Ledger.{
  PostCreditPendingInput, CompleteCreditInput, pending_data, pending_unless, pending_body,
  complete_credit_successful,
}
use prestohq_assessment.Ledger.Completion.{complete-cases}

module _ (X : List WithdrawalEntity → Type 0) where
  abbrev Beside : State → Type 0
  Beside s = X s.withdrawals

  lock-Beside : (id : String) → Keeps Beside (lock_wallet id)
  lock-Beside id s h = elim (lock_wallet-cases id s) [
    | inl (e, absent) ↦ rw absent h
    | inr there ↦ rw there h
  ]

  insert-Beside : (d : CreateWalletTransactionData) → Keeps Beside (insert d)
  insert-Beside d s h = elim (insert-cases d s) [
    | inl (e, refused) ↦ rw refused h
    | inr (done, _, _) ↦ rw done h
  ]

  pending_unless-Beside :
      (i : PostCreditPendingInput) (o : Option WalletTransactionEntity)
      → Keeps Beside (pending_unless i o)
  unfolding pending_unless
  pending_unless-Beside i none =
      bind-Keeps Beside (insert (pending_data i)) _ (insert-Beside (pending_data i)) (λ t s h. h)
  pending_unless-Beside i (some t) = λ s h. h

  pub pending-Beside : (i : PostCreditPendingInput) → Keeps Beside (transaction (pending_body i))
  unfolding pending_body
  pending-Beside i = transaction-Keeps Beside (pending_body i) (
      then-Keeps Beside (lock_wallet i.wallet_id) _ (lock-Beside i.wallet_id)
        (λ s h. pending_unless-Beside i (find (by_key i.idempotency_key) s.journal) s h))

  pub complete-Beside : (i : CompleteCreditInput) → Keeps Beside (complete_credit_successful i)
  complete-Beside i s h = elim (complete-cases i s) [
    | inl (e, refused) ↦ rw refused h
    | inr (inl (t, old, _, _)) ↦ rw old h
    | inr (inr (t, done, _, _)) ↦ rw done h
  ]
