-- ===== src/System/Finished.antt =====
-- What becomes of the withdrawals over any run of the service.
use prestohq_assessment.Prelude.{inl, inr, List, eq_refl, update-append_row}
use prestohq_assessment.Db.{State, WithdrawalEntity}
use prestohq_assessment.Exec.{transaction}
use prestohq_assessment.Ledger.Aside.{pending-Beside, complete-Beside}
use prestohq_assessment.WithdrawalStore.{
  ExecuteP2pWithdrawalData, ExecuteBankWithdrawalData, p2p_row, p2p_body, bank_row, bank_body,
}
use prestohq_assessment.WithdrawalStore.Rows.{apply_update, withdrawal_by_id}
use prestohq_assessment.WithdrawalStore.Trail.{
  Evolves, Evolves-refl, Evolves-append_row, Evolves-update,
}
use prestohq_assessment.WithdrawalStore.P2p.{p2p_transaction-cases}
use prestohq_assessment.WithdrawalStore.P2p
use prestohq_assessment.WithdrawalStore.Bank.{bank_transaction-cases}
use prestohq_assessment.WithdrawalStore.Bank
use prestohq_assessment.WithdrawalStore.Transactions.{IsKeptByRequests}
use prestohq_assessment.Environment.{Environment}
use prestohq_assessment.Payouts.Refunds.{reversed_by}
use prestohq_assessment.Payouts.Effects.{
  Effect, idle, progressed, refunded, process_payout-Effect, process_settle-Effect,
}
use prestohq_assessment.System.{Reachable}
use prestohq_assessment.System.Reach.{Reachable-KeepsInTables}

module _ (old : List WithdrawalEntity) where
  p2p-Evolves :
      (d : ExecuteP2pWithdrawalData) (s : State)
      → Evolves old s.withdrawals
      → Evolves old (transaction (p2p_body d) s).1.withdrawals
  p2p-Evolves d s h = elim (p2p_transaction-cases d s) [
    | inl (e, refused) ↦ rw refused h
    | inr (inl (w, replayed, _)) ↦ rw replayed h
    | inr (inr (done, _, fresh)) ↦
        rw
          (
            done,
            update-append_row (withdrawal_by_id (p2p_row d s).id) (apply_update (P2p.links d s))
                s.withdrawals (p2p_row d s) fresh.new_id (eq_refl (p2p_row d s).id),
          )
          (Evolves-append_row old s.withdrawals (apply_update (P2p.links d s) (p2p_row d s)) h)
  ]

  bank-Evolves :
      (d : ExecuteBankWithdrawalData) (s : State)
      → Evolves old s.withdrawals
      → Evolves old (transaction (bank_body d) s).1.withdrawals
  bank-Evolves d s h = elim (bank_transaction-cases d s) [
    | inl (e, refused) ↦ rw refused h
    | inr (inl (w, replayed, _)) ↦ rw replayed h
    | inr (inr (done, _, fresh)) ↦
        rw
          (
            done,
            update-append_row (withdrawal_by_id (bank_row d s).id) (apply_update (Bank.links d s))
                s.withdrawals (bank_row d s) fresh.new_id (eq_refl (bank_row d s).id),
          )
          (Evolves-append_row old s.withdrawals (apply_update (Bank.links d s) (bank_row d s)) h)
  ]

  Effect-Evolves :
      {s s' : State} → Effect s s' → Evolves old s.withdrawals → Evolves old s'.withdrawals
  Effect-Evolves (idle (_, same)) h = rw same h
  Effect-Evolves {s} (progressed w d found running _ _ done) h =
      rw done (Evolves-update d old s.withdrawals w found running h)
  Effect-Evolves {s} (refunded w t found running _ done) h =
      rw done (Evolves-update (reversed_by t) old s.withdrawals w found running h)

  Evolves-kept : IsKeptByRequests (λ _ ws. Evolves old ws)
  Evolves-kept = record {
    pending = λ i other. pending-Beside (Evolves old) i;
    complete = complete-Beside (Evolves old);
    p2p = p2p-Evolves;
    bank = bank-Evolves;
  }

-- No run of requests, webhooks and jobs, in which transactions and jobs run one after another, deletes or
-- moves a withdrawal or edits what was asked for; a finished one, whether paid, failed or refunded, stays
-- as it is. New withdrawals come behind.
pub finished_withdrawals_stay :
    (env : Environment) (first s : State)
    → Reachable env first s
    → Evolves first.withdrawals s.withdrawals
finished_withdrawals_stay env first s r =
    Reachable-KeepsInTables (λ _ ws. Evolves first.withdrawals ws) (Evolves-kept first.withdrawals)
      (λ flutterwave id s.
        Effect-Evolves first.withdrawals (process_payout-Effect flutterwave id s))
      (λ flutterwave id s.
        Effect-Evolves first.withdrawals (process_settle-Effect flutterwave id s))
      env first s (Evolves-refl first.withdrawals) r
