-- ===== src/WithdrawalStore/Transactions.antt =====
-- The database transactions that write to the journal. What each of them keeps, every request and
-- every job keeps, and also any interleaving of them.
use Prim.Native.String.{◌++◌}
use prestohq_assessment.Prelude.{List, ◌≡◌, inl, inr, Option, none, some, find, append_row}
use prestohq_assessment.Db.{State, WalletTransactionEntity, WithdrawalEntity}
use prestohq_assessment.Exec.{transaction}
use prestohq_assessment.Keeping.{Keeps, bind-Keeps, then-Keeps, transaction-Keeps}
use prestohq_assessment.Journal.{
  Rows, CreateWalletTransactionData, by_key, insert, new_row, lock_wallet,
}
use prestohq_assessment.Journal.Keys.{IsOtherKey}
use prestohq_assessment.Journal.Balance.{IsSolvent, InJournal, InTables, SolventState, insert-cases}
use prestohq_assessment.Ledger.{
  PostDebitInput, debit_body, PostCreditPendingInput, CompleteCreditInput, PostReversalInput,
  pending_data, pending_unless, pending_body, reversal_data, reversal_unless, reversal_body,
  complete_credit_successful, post_reversal_credit,
}
use prestohq_assessment.Ledger.Debits.{debit_transaction-IsSolvent}
use prestohq_assessment.Ledger.Credits.{awaiting-IsSolvent}
use prestohq_assessment.Ledger.Completion.{complete-IsSolvent}
use prestohq_assessment.Ledger.Reversals.{posted_reversal-IsSolvent}
use prestohq_assessment.Ledger.Writes.{lock-Keeps}
use prestohq_assessment.WithdrawalStore.{
  ExecuteP2pWithdrawalData, ExecuteBankWithdrawalData, p2p_body, bank_body,
}
use prestohq_assessment.WithdrawalStore.P2pEffects.{p2p_transaction-IsSolvent}
use prestohq_assessment.WithdrawalStore.BankEffects.{bank_transaction-IsSolvent}

-- A property of the journal that each of the transactions keeps, whatever it is given and answers, and
-- whatever was read before it began.
pub record IsKept (Q : Rows → Type 0) : Type 0 where
  pub pending : (i : PostCreditPendingInput) → Keeps (InJournal Q) (transaction (pending_body i))
  pub debit : (i : PostDebitInput) → Keeps (InJournal Q) (transaction (debit_body i))
  pub complete : (i : CompleteCreditInput) → Keeps (InJournal Q) (complete_credit_successful i)
  pub reversal : (i : PostReversalInput) → Keeps (InJournal Q) (transaction (reversal_body i))
  pub p2p : (d : ExecuteP2pWithdrawalData) → Keeps (InJournal Q) (transaction (p2p_body d))
  pub bank : (d : ExecuteBankWithdrawalData) → Keeps (InJournal Q) (transaction (bank_body d))

-- The key under which the workers post the refund of a debit
abbrev pub HasReversalKey : PostReversalInput → Type 0
HasReversalKey i = i.idempotency_key ≡ "reversal:" ++ i.original_debit_id

-- A property of the journal that each call which the services make keeps: less is asked than above, since
-- no service posts a plain debit, and every reversal has the key of its debit.
pub record IsKeptByCalls (Q : Rows → Type 0) : Type 0 where
  pub pending : (i : PostCreditPendingInput) → Keeps (InJournal Q) (transaction (pending_body i))
  pub complete : (i : CompleteCreditInput) → Keeps (InJournal Q) (complete_credit_successful i)
  pub reversal :
      (i : PostReversalInput) → HasReversalKey i → Keeps (InJournal Q) (post_reversal_credit i)
  pub p2p : (d : ExecuteP2pWithdrawalData) → Keeps (InJournal Q) (transaction (p2p_body d))
  pub bank : (d : ExecuteBankWithdrawalData) → Keeps (InJournal Q) (transaction (bank_body d))

-- The same for a property that is also about the withdrawals, of the calls that requests and the job of
-- a deposit make: the pending credit of a deposit has no refund's key
pub record IsKeptByRequests (Q : Rows → List WithdrawalEntity → Type 0) : Type 0 where
  pub pending :
      (i : PostCreditPendingInput)
      → IsOtherKey i.idempotency_key
      → Keeps (InTables Q) (transaction (pending_body i))
  pub complete : (i : CompleteCreditInput) → Keeps (InTables Q) (complete_credit_successful i)
  pub p2p : (d : ExecuteP2pWithdrawalData) → Keeps (InTables Q) (transaction (p2p_body d))
  pub bank : (d : ExecuteBankWithdrawalData) → Keeps (InTables Q) (transaction (bank_body d))

pub IsKeptByCalls-IsKeptByRequests :
    (Q : Rows → Type 0) → IsKeptByCalls Q → IsKeptByRequests (λ rows _. Q rows)
IsKeptByCalls-IsKeptByRequests Q kept = record {
  pending = λ i other. kept.pending i;
  complete = kept.complete;
  p2p = kept.p2p;
  bank = kept.bank;
}

inserted-IsSolvent :
    (d : CreateWalletTransactionData)
    → ((s : State) → IsSolvent s.journal → IsSolvent (append_row s.journal (new_row d s)))
    → Keeps SolventState (insert d)
inserted-IsSolvent d safe s h = elim (insert-cases d s) [
  | inl (e, refused) ↦ rw refused h
  | inr (done, _, _) ↦ rw done (safe s h)
]

pending_unless-IsSolvent :
    (i : PostCreditPendingInput) (o : Option WalletTransactionEntity)
    → Keeps SolventState (pending_unless i o)
unfolding pending_unless
pending_unless-IsSolvent i none =
    bind-Keeps SolventState (insert (pending_data i)) _
      (inserted-IsSolvent (pending_data i) (awaiting-IsSolvent i)) (λ t s h. h)
pending_unless-IsSolvent i (some t) = λ s h. h

pending_body-IsSolvent : (i : PostCreditPendingInput) → Keeps SolventState (pending_body i)
unfolding pending_body
pending_body-IsSolvent i =
    then-Keeps SolventState (lock_wallet i.wallet_id) _ (lock-Keeps IsSolvent i.wallet_id)
      (λ s h. pending_unless-IsSolvent i (find (by_key i.idempotency_key) s.journal) s h)

reversal_unless-IsSolvent :
    (i : PostReversalInput) (o : Option WalletTransactionEntity)
    → Keeps SolventState (reversal_unless i o)
unfolding reversal_unless
reversal_unless-IsSolvent i none =
    bind-Keeps SolventState (insert (reversal_data i)) _
      (inserted-IsSolvent (reversal_data i) (posted_reversal-IsSolvent i)) (λ t s h. h)
reversal_unless-IsSolvent i (some t) = λ s h. h

reversal_body-IsSolvent : (i : PostReversalInput) → Keeps SolventState (reversal_body i)
unfolding reversal_body
reversal_body-IsSolvent i =
    then-Keeps SolventState (lock_wallet i.wallet_id) _ (lock-Keeps IsSolvent i.wallet_id)
      (λ s h. reversal_unless-IsSolvent i (find (by_key i.idempotency_key) s.journal) s h)

pub IsSolvent-IsKept : IsKept IsSolvent
IsSolvent-IsKept = record {
  pending = λ i. transaction-Keeps SolventState (pending_body i) (pending_body-IsSolvent i);
  debit = debit_transaction-IsSolvent;
  complete = complete-IsSolvent;
  reversal = λ i. transaction-Keeps SolventState (reversal_body i) (reversal_body-IsSolvent i);
  p2p = p2p_transaction-IsSolvent;
  bank = bank_transaction-IsSolvent;
}
