-- ===== src/System/Books.antt =====
-- The service's accounts as a whole: what every reachable journal adds up to.
use prestohq_assessment.Prelude.{
  ◌+◌, ◌≤◌, String, ◌≡◌, refl, inl, inr, some, [], find, sum_by, str_eq-true, arith,
}
use prestohq_assessment.Prelude.Int.{sub_ℕ}
use prestohq_assessment.Db.{State, WalletTransactionEntity}
use prestohq_assessment.Exec.{transaction}
use prestohq_assessment.Keeping.{transaction-Keeps}
use prestohq_assessment.Journal.{by_id, new_row}
use prestohq_assessment.Journal.Books.{IsBooked, total, deposits, payouts, refunds, repaid}
use prestohq_assessment.Journal.Accounting.{total_accounted, repaid_in}
use prestohq_assessment.Journal.Bookkeeping.{
  IsBooked-append_row, IsBooked-append_rows, IsBooked-update,
}
use prestohq_assessment.Ledger.{
  PostCreditPendingInput, CompleteCreditInput, PostReversalInput, pending_data, pending_body,
  complete_credit_successful, reversal_data, post_reversal_credit,
}
use prestohq_assessment.Ledger.Reversals.{post_reversal-cases}
use prestohq_assessment.Ledger.Writes.{pending_body-Keeps, complete-Keeps}
use prestohq_assessment.WithdrawalStore.{
  ExecuteP2pWithdrawalData, ExecuteBankWithdrawalData, p2p_body, bank_body, bank_debit,
}
use prestohq_assessment.WithdrawalStore.P2p.{paid_row, got_row, p2p_transaction-cases}
use prestohq_assessment.WithdrawalStore.Transactions.{HasReversalKey, IsKeptByCalls}
use prestohq_assessment.WithdrawalStore.Writes.{bank_body-Keeps}
use prestohq_assessment.Environment.{Environment}
use prestohq_assessment.System.{Reachable}
use prestohq_assessment.System.Reach.{Reachable-KeepsByCalls}
use prestohq_assessment.System.History.{IsKeyed, Reachable-IsKeyed}

pending-IsBooked :
    (i : PostCreditPendingInput) (s : State)
    → IsBooked s.journal
    → IsBooked (transaction (pending_body i) s).1.journal
pending-IsBooked i =
    transaction-Keeps (λ s. IsBooked s.journal) (pending_body i)
      (pending_body-Keeps IsBooked i (λ s new_id new_key small b.
        IsBooked-append_row s.journal (new_row (pending_data i) s) refl refl tt b))

complete-IsBooked :
    (i : CompleteCreditInput) (s : State)
    → IsBooked s.journal
    → IsBooked (complete_credit_successful i s).1.journal
complete-IsBooked i =
    complete-Keeps IsBooked i (λ t rows found waits b. IsBooked-update t.id rows t found waits b)

reversal-IsBooked :
    (i : PostReversalInput)
    → HasReversalKey i
    → (s : State) → IsBooked s.journal
    → IsBooked (post_reversal_credit i s).1.journal
reversal-IsBooked i key s b = elim (post_reversal-cases i s) [
  | inl (e, refused) ↦ rw refused b
  | inr (inl (t, old, _)) ↦ rw old b
  | inr (inr (done, (t, found, (is_debit, wallet, amount)), _, _)) ↦ rw done (
      IsBooked-append_row s.journal (new_row (reversal_data i) s) (str_eq-true key) refl
        (t, found, is_debit, wallet, amount) b)
]

p2p-IsBooked :
    (d : ExecuteP2pWithdrawalData) (s : State)
    → IsBooked s.journal
    → IsBooked (transaction (p2p_body d) s).1.journal
p2p-IsBooked d s b = elim (p2p_transaction-cases d s) [
  | inl (e, refused) ↦ rw refused b
  | inr (inl (w, old, _)) ↦ rw old b
  | inr (inr (done, _, _)) ↦ rw done (
      IsBooked-append_rows s.journal (paid_row d s) (got_row d s) refl refl (omega arith) refl refl
        b)
]

bank-IsBooked :
    (d : ExecuteBankWithdrawalData) (s : State)
    → IsBooked s.journal
    → IsBooked (transaction (bank_body d) s).1.journal
bank-IsBooked d =
    transaction-Keeps (λ s. IsBooked s.journal) (bank_body d)
      (bank_body-Keeps IsBooked d (λ w s new_id new_key small b.
        IsBooked-append_row s.journal (new_row (bank_debit d w) s) refl refl tt b))

pub IsBooked-kept : IsKeptByCalls IsBooked
IsBooked-kept = record {
  pending = pending-IsBooked;
  complete = complete-IsBooked;
  reversal = reversal-IsBooked;
  p2p = p2p-IsBooked;
  bank = bank-IsBooked;
}

pub empty-IsBooked : IsBooked []
empty-IsBooked = record { fit = refl; even = refl; backed = tt }

Reachable-IsBooked :
    (env : Environment) (first s : State)
    → first.journal ≡ []
    → Reachable env first s
    → IsBooked s.journal
Reachable-IsBooked env first s empty r =
    Reachable-KeepsByCalls IsBooked IsBooked-kept env first s (rw empty empty-IsBooked) r

-- In every state that the service reaches from an empty journal, the money in all wallets together is what
-- the completed deposits brought and the refunds paid back, less what the bank payouts took: nothing
-- else makes or loses money, payments between wallets among them.
pub money_accounted :
    (env : Environment) (first s : State)
    → first.journal ≡ []
    → Reachable env first s
    → total s.journal ≡ sub_ℕ (deposits s.journal + refunds s.journal) (payouts s.journal)
money_accounted env first s empty r =
    total_accounted s.journal (Reachable-IsBooked env first s empty r)

pub empty-IsKeyed : IsKeyed []
empty-IsKeyed = record { ids = tt; keys = tt }

-- In every state that the service reaches from an empty journal, the rows that name a journal row as the
-- one they pay back pay together at most that row's amount: no failed payout, repeated job or provider
-- answer refunds a debit twice.
pub never_refunded_twice :
    (env : Environment) (first s : State) (id : String) (o : WalletTransactionEntity)
    → first.journal ≡ []
    → Reachable env first s
    → find (by_id id) s.journal ≡ some o
    → sum_by (repaid id) s.journal ≤ o.amount
never_refunded_twice env first s id o empty r found =
    let b : IsBooked s.journal = Reachable-IsBooked env first s empty r in
    let k : IsKeyed s.journal = Reachable-IsKeyed env first s (rw empty empty-IsKeyed) r in
    repaid_in id o s.journal s.journal found k.keys b.fit b.backed
