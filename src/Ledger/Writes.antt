-- ===== src/Ledger/Writes.antt =====
-- The two writes that the transactions of the ledger consist of, an insertion under a new identifier and
-- key, and the completion of a pending row: what both keep, every transaction keeps.
use prestohq_assessment.Prelude.{
  ◌≤◌, String, ◌≡◌, inl, inr, Option, none, some, Option-cases, arith, find, update, append_row,
}
use prestohq_assessment.Db.{State, WalletTransactionEntity, tx_pending, tx_successful}
use prestohq_assessment.Keeping.{Keeps, guard-Keeps, bind-Keeps, then-Keeps}
use prestohq_assessment.Journal.{
  Rows, CreateWalletTransactionData, by_id, by_key, new_row, insert, refusal, int4_max, lock_wallet,
  set_status, balance,
}
use prestohq_assessment.Journal.Balance.{InJournal, lock_wallet-cases}
use prestohq_assessment.Prelude.Int.{pos, ltb_ℤ}
use prestohq_assessment.Ledger.{
  PostDebitInput, debit_data, debit_unless, debit_body, insufficient, PostCreditPendingInput,
  CompleteCreditInput, PostReversalInput, pending_body, pending_unless, pending_data,
  complete_credit_successful, reversal_body, reversal_unless, reversal_data, insert_and_sum,
}
use prestohq_assessment.Ledger.Completion.{complete-cases, found_by_own_id}

-- A row that an insertion may append without losing the property: its identifier and key are new, and
-- its amount fits the column.
abbrev pub Insertable : (Rows → Type 0) → CreateWalletTransactionData → Type 0
Insertable Q d =
    (s : State)
    → find (by_id (new_row d s).id) s.journal ≡ none
    → find (by_key d.idempotency_key) s.journal ≡ none
    → d.amount ≤ int4_max
    → Q s.journal
    → Q (append_row s.journal (new_row d s))

-- A property that the completion of a pending row keeps
abbrev pub Completable : (Rows → Type 0) → Type 0
Completable Q =
    (t : WalletTransactionEntity) (rows : Rows)
    → find (by_id t.id) rows ≡ some t
    → t.status ≡ tx_pending
    → Q rows
    → Q (update (by_id t.id) (set_status tx_successful) rows)

pub record IsKeptByWrites (Q : Rows → Type 0) : Type 0 where
  pub inserted : (d : CreateWalletTransactionData) → Insertable Q d
  pub completed : Completable Q

module _ (Q : Rows → Type 0) where
  pub lock-Keeps : (id : String) → Keeps (InJournal Q) (lock_wallet id)
  lock-Keeps id s h = elim (lock_wallet-cases id s) [
    | inl (e, absent) ↦ rw absent h
    | inr there ↦ rw there h
  ]

module _ (Q : Rows → Type 0) where
  pub insert-Keeps :
      (d : CreateWalletTransactionData) → Insertable Q d → Keeps (InJournal Q) (insert d)
  unfolding insert
  insert-Keeps d safe s h = elim (Option-cases (refusal d s)) [
    | inl free ↦
        rw (free, insert)
          (safe s (ground (arith, free)) (ground (arith, free)) (ground (arith, free)) h)
    | inr (e, refused) ↦ rw (refused, insert) h
  ]

  insert_and_sum-Keeps :
      (d : CreateWalletTransactionData) → Insertable Q d → Keeps (InJournal Q) (insert_and_sum d)
  insert_and_sum-Keeps d safe =
      bind-Keeps (InJournal Q) (insert d) _ (insert-Keeps d safe) (λ t s h. h)

  pending_unless-Keeps :
      (i : PostCreditPendingInput) (o : Option WalletTransactionEntity)
      → Insertable Q (pending_data i)
      → Keeps (InJournal Q) (pending_unless i o)
  unfolding pending_unless
  pending_unless-Keeps i none safe =
      bind-Keeps (InJournal Q) (insert (pending_data i)) _ (insert-Keeps (pending_data i) safe)
        (λ t s h. h)
  pending_unless-Keeps i (some t) safe = λ s h. h

  pub pending_body-Keeps :
      (i : PostCreditPendingInput)
      → Insertable Q (pending_data i)
      → Keeps (InJournal Q) (pending_body i)
  unfolding pending_body
  pending_body-Keeps i safe =
      then-Keeps (InJournal Q) (lock_wallet i.wallet_id) _ (lock-Keeps Q i.wallet_id)
        (λ s h. pending_unless-Keeps i (find (by_key i.idempotency_key) s.journal) safe s h)

  reversal_unless-Keeps :
      (i : PostReversalInput) (o : Option WalletTransactionEntity)
      → Insertable Q (reversal_data i)
      → Keeps (InJournal Q) (reversal_unless i o)
  unfolding reversal_unless
  reversal_unless-Keeps i none safe = insert_and_sum-Keeps (reversal_data i) safe
  reversal_unless-Keeps i (some t) safe = λ s h. h

  pub reversal_body-Keeps :
      (i : PostReversalInput)
      → Insertable Q (reversal_data i)
      → Keeps (InJournal Q) (reversal_body i)
  unfolding reversal_body
  reversal_body-Keeps i safe =
      then-Keeps (InJournal Q) (lock_wallet i.wallet_id) _ (lock-Keeps Q i.wallet_id)
        (λ s h. reversal_unless-Keeps i (find (by_key i.idempotency_key) s.journal) safe s h)

  debit_unless-Keeps :
      (i : PostDebitInput) (o : Option WalletTransactionEntity)
      → Insertable Q (debit_data i)
      → Keeps (InJournal Q) (debit_unless i o)
  unfolding debit_unless
  debit_unless-Keeps i none safe = λ s h.
      guard-Keeps (InJournal Q) (ltb_ℤ (balance i.wallet_id s.journal) (pos i.amount)) insufficient
        _ (insert_and_sum-Keeps (debit_data i) safe) s h
  debit_unless-Keeps i (some t) safe = λ s h. h

  pub debit_body-Keeps :
      (i : PostDebitInput) → Insertable Q (debit_data i) → Keeps (InJournal Q) (debit_body i)
  unfolding debit_body
  debit_body-Keeps i safe =
      then-Keeps (InJournal Q) (lock_wallet i.wallet_id) _ (lock-Keeps Q i.wallet_id)
        (λ s h. debit_unless-Keeps i (find (by_key i.idempotency_key) s.journal) safe s h)

  pub complete-Keeps :
      (i : CompleteCreditInput) → Completable Q → Keeps (InJournal Q) (complete_credit_successful i)
  complete-Keeps i safe s h = elim (complete-cases i s) [
    | inl (e, refused) ↦ rw refused h
    | inr (inl (t, old, _, _)) ↦ rw old h
    | inr (inr (t, done, named, is)) ↦ rw done (safe t s.journal (found_by_own_id i s t named) is h)
  ]
