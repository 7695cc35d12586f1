-- ===== src/System/Limits.antt =====
-- The INT4 columns as a limit on withdrawals: the decorators of create-withdrawal.dto.ts accept up to
-- 5,000,000,000 kobo.
use mathlib.Core.Path.{subst}
use prestohq_assessment.Prelude.{◌<◌, ◌≤◌, ◌≡◌, inl, inr, none, find, arith}
use prestohq_assessment.Errors.{Error}
use prestohq_assessment.Db.{State}
use prestohq_assessment.Exec.{err}
use prestohq_assessment.Journal.{int4_max}
use prestohq_assessment.Journal.Range.{IsInt4, IsInt4-last}
use prestohq_assessment.WithdrawalStore.{
  ExecuteP2pWithdrawalData, ExecuteBankWithdrawalData, execute_p2p, execute_bank_accept,
}
use prestohq_assessment.WithdrawalStore.Rows.{by_user_and_key}
use prestohq_assessment.WithdrawalStore.P2p.{p2p_done, after_debit, got_row, execute_p2p-cases}
use prestohq_assessment.WithdrawalStore.Bank.{bank_done, paid_row, execute_bank-cases}
use prestohq_assessment.WithdrawalStore.Operations.{
  IsKept-IsKeptByCalls, execute_p2p-Keeps, execute_bank-Keeps,
}
use prestohq_assessment.WithdrawalStore.Transactions.{
  IsKeptByRequests, IsKeptByCalls-IsKeptByRequests,
}
use prestohq_assessment.WithdrawalStore.Writes.{IsKeptByWrites-IsKept}
use prestohq_assessment.System.History.{IsInt4-kept}

IsInt4-requests : IsKeptByRequests (λ rows _. IsInt4 rows)
IsInt4-requests =
    IsKeptByCalls-IsKeptByRequests IsInt4
      (IsKept-IsKeptByCalls IsInt4 (IsKeptByWrites-IsKept IsInt4 IsInt4-kept))

module _ (s : State) (fits : IsInt4 s.journal) where
  p2p_done-amount :
      (d : ExecuteP2pWithdrawalData) → IsInt4 (p2p_done d s).journal → d.amount ≤ int4_max
  p2p_done-amount d h = IsInt4-last (after_debit d s).journal (got_row d s) h

  large_p2p_fails :
      (d : ExecuteP2pWithdrawalData)
      → int4_max < d.amount
      → find (by_user_and_key d.user_id d.idempotency_key) s.withdrawals ≡ none
      → (e : Error) × (execute_p2p d s ≡ (err e, s))
  large_p2p_fails d large new = elim (execute_p2p-cases d s) [
    | inl (e, refused) ↦ (e, refused)
    | inr (inl (w, old, known, _)) ↦ absurd (cc (new, known))
    | inr (inr (done, _, _)) ↦
        let after : IsInt4 (execute_p2p d s).1.journal =
          execute_p2p-Keeps (λ rows _. IsInt4 rows) IsInt4-requests d s fits in
        let amount = p2p_done-amount d (subst (λ x. IsInt4 x.1.journal) done after) in
        absurd (omega (arith, amount, large))
  ]

  large_bank_fails :
      (d : ExecuteBankWithdrawalData)
      → int4_max < d.amount
      → find (by_user_and_key d.user_id d.idempotency_key) s.withdrawals ≡ none
      → (e : Error) × (execute_bank_accept d s ≡ (err e, s))
  large_bank_fails d large new = elim (execute_bank-cases d s) [
    | inl (e, refused) ↦ (e, refused)
    | inr (inl (w, old, known, _)) ↦ absurd (cc (new, known))
    | inr (inr (done, _, _)) ↦
        let after : IsInt4 (execute_bank_accept d s).1.journal =
          execute_bank-Keeps (λ rows _. IsInt4 rows) IsInt4-requests d s fits in
        let h : IsInt4 (bank_done d s).journal = subst (λ x. IsInt4 x.1.journal) done after in
        let amount : d.amount ≤ int4_max = IsInt4-last s.journal (paid_row d s) h in
        absurd (omega (arith, amount, large))
  ]

-- In a journal of INT4 amounts, as every reachable one is, a withdrawal of more than 2,147,483,647 kobo
-- under a new key, to a wallet or to a bank, is an error that changes nothing.
pub large_withdrawals_fail :
    (s : State) (p : ExecuteP2pWithdrawalData) (b : ExecuteBankWithdrawalData)
    → IsInt4 s.journal
    → 2147483647 < p.amount
    → find (by_user_and_key p.user_id p.idempotency_key) s.withdrawals ≡ none
    → 2147483647 < b.amount
    → find (by_user_and_key b.user_id b.idempotency_key) s.withdrawals ≡ none
    → ((e : Error) × (execute_p2p p s ≡ (err e, s)))
      × ((e : Error) × (execute_bank_accept b s ≡ (err e, s)))
large_withdrawals_fail s p b fits large_p new_p large_b new_b =
    (large_p2p_fails s fits p large_p new_p, large_bank_fails s fits b large_b new_b)
