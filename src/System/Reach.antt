-- ===== src/System/Reach.antt =====
-- What holds in every state that the service can reach.
use prestohq_assessment.Prelude.{◌≤◌, String, ◌≡◌, refl, List, [], str_eq, arith}
use prestohq_assessment.Db.{State, WithdrawalEntity}
use prestohq_assessment.Keeping.{Keeps, when-Keeps}
use prestohq_assessment.Journal.{Rows, credits, debits}
use prestohq_assessment.Journal.Balance.{IsSolvent, InTables}
use prestohq_assessment.WithdrawalStore.Transactions.{
  IsKept, IsKeptByCalls, IsKeptByRequests, IsKeptByCalls-IsKeptByRequests, IsSolvent-IsKept,
}
use prestohq_assessment.WithdrawalStore.Operations.{IsKept-IsKeptByCalls, post_pending-Keeps}
use prestohq_assessment.Provider.{FlutterwaveProvider}
use prestohq_assessment.Environment.{Environment}
use prestohq_assessment.TransferComplete.{process, complete_from_webhook}
use prestohq_assessment.Payouts.{
  process_payout, process_settle, process_payout_job, process_settle_job,
}
use prestohq_assessment.Payouts.Soundness.{process_payout-Keeps, process_settle-Keeps}
use prestohq_assessment.System.{
  Operation, post_register, post_login, post_pin, post_transfer, post_webhook, complete_job,
  post_withdrawal, payout_job, settle_job, wait, perform, Reachable, start, after,
}
use prestohq_assessment.System.Accounts.{register-Keeps, login-Keeps, create_pin-Keeps}
use prestohq_assessment.System.Completing.{complete_from_webhook-Keeps}
use prestohq_assessment.System.Funding.{handle_webhook-Keeps, create_transfer_request-Keeps}
use prestohq_assessment.System.Paying.{create_withdrawal_request-Keeps}

-- What the calls of requests and both workers of withdrawals keep, every operation keeps, whatever it
-- answers.
module _ (Q : Rows → List WithdrawalEntity → Type 0) (kept : IsKeptByRequests Q)
    (paying : (flutterwave : FlutterwaveProvider) (id : String)
      → Keeps (InTables Q) (process_payout flutterwave id))
    (settling : (flutterwave : FlutterwaveProvider) (id : String)
      → Keeps (InTables Q) (process_settle flutterwave id))
    (env : Environment) where
  pub perform-KeepsInTables :
      (o : Operation) (s : State) → InTables Q s → InTables Q (perform env o s)
  unfolding perform process process_payout_job process_settle_job
  perform-KeepsInTables (post_register dto) s h = register-Keeps Q env dto s h
  perform-KeepsInTables (post_login dto) s h = login-Keeps Q env dto s h
  perform-KeepsInTables (post_pin actor dto) s h = create_pin-Keeps Q env actor dto s h
  perform-KeepsInTables (post_transfer flutterwave actor dto key) s h =
      create_transfer_request-Keeps flutterwave Q (post_pending-Keeps Q kept) env actor dto key s h
  perform-KeepsInTables (post_webhook flutterwave verif_hash body) s h =
      handle_webhook-Keeps flutterwave Q verif_hash body s h
  perform-KeepsInTables (complete_job flutterwave job) s h =
      when-Keeps (InTables Q) (str_eq job.name "complete")
        (complete_from_webhook flutterwave job.subject)
        (complete_from_webhook-Keeps Q kept flutterwave job.subject) s h
  perform-KeepsInTables (post_withdrawal actor dto key) s h =
      create_withdrawal_request-Keeps Q kept env actor dto key s h
  perform-KeepsInTables (payout_job flutterwave job) s h =
      when-Keeps (InTables Q) (str_eq job.name "payout") (process_payout flutterwave job.subject)
        (paying flutterwave job.subject) s h
  perform-KeepsInTables (settle_job flutterwave job) s h =
      when-Keeps (InTables Q) (str_eq job.name "settle") (process_settle flutterwave job.subject)
        (settling flutterwave job.subject) s h
  perform-KeepsInTables (wait milliseconds) s h = h

  pub Reachable-KeepsInTables :
      (first s : State) → InTables Q first → Reachable env first s → InTables Q s
  Reachable-KeepsInTables first s h start = h
  Reachable-KeepsInTables first s h (after {s = t} r o) =
      perform-KeepsInTables o t (Reachable-KeepsInTables first t h r)

-- The same for a property of the journal alone, which the workers keep with their one call.
module _ (Q : Rows → Type 0) (kept : IsKeptByCalls Q) (env : Environment) where
  pub perform-KeepsByCalls : (o : Operation) (s : State) → Q s.journal → Q (perform env o s).journal
  perform-KeepsByCalls =
      perform-KeepsInTables (λ rows _. Q rows) (IsKeptByCalls-IsKeptByRequests Q kept)
        (process_payout-Keeps Q kept) (process_settle-Keeps Q kept) env

  pub Reachable-KeepsByCalls :
      (first s : State) → Q first.journal → Reachable env first s → Q s.journal
  Reachable-KeepsByCalls =
      Reachable-KeepsInTables (λ rows _. Q rows) (IsKeptByCalls-IsKeptByRequests Q kept)
        (process_payout-Keeps Q kept) (process_settle-Keeps Q kept) env

-- What the database transactions keep, every operation keeps, whatever it answers.
pub perform-Keeps :
    (Q : Rows → Type 0) (kept : IsKept Q) (env : Environment) (o : Operation) (s : State)
    → Q s.journal
    → Q (perform env o s).journal
perform-Keeps Q kept env o s h = perform-KeepsByCalls Q (IsKept-IsKeptByCalls Q kept) env o s h

pub Reachable-Keeps :
    (Q : Rows → Type 0) (kept : IsKept Q) (env : Environment) (first s : State)
    → Q first.journal
    → Reachable env first s
    → Q s.journal
Reachable-Keeps Q kept env first s h r =
    Reachable-KeepsByCalls Q (IsKept-IsKeptByCalls Q kept) env first s h r

pub empty-IsSolvent : IsSolvent []
unfolding debits credits
empty-IsSolvent = record { covered = λ w. omega arith; settled = refl }

-- From an empty journal the service reaches only states in which every wallet's successful debits are
-- at most its successful credits: no order of requests, webhooks, jobs, retries and provider answers
-- overdraws a wallet.
pub never_overdrawn :
    (env : Environment) (first s : State) (w : String)
    → first.journal ≡ []
    → Reachable env first s
    → debits w s.journal ≤ credits w s.journal
never_overdrawn env first s w empty r =
    (Reachable-Keeps IsSolvent IsSolvent-IsKept env first s (rw empty empty-IsSolvent) r).covered w
