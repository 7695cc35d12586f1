-- ===== src/System/Interleaving.antt =====
-- Requests and jobs that run at the same time. Row locks and unique indexes make concurrent transactions
-- act as if one ran after the other, which is assumed; between them anything may happen. So what can
-- happen to the journal is a sequence of transactions, each with whatever arguments its caller took from
-- earlier reads, and whatever the other tables, clocks and queues hold when it runs.
use prestohq_assessment.Prelude.{◌≤◌, String, []}
use prestohq_assessment.Db.{State}
use prestohq_assessment.Exec.{transaction}
use prestohq_assessment.Journal.{Rows, credits, debits}
use prestohq_assessment.Journal.Balance.{IsSolvent}
use prestohq_assessment.Ledger.{
  PostDebitInput, debit_body, PostCreditPendingInput, CompleteCreditInput, PostReversalInput,
  pending_body, complete_credit_successful, reversal_body,
}
use prestohq_assessment.WithdrawalStore.{
  ExecuteP2pWithdrawalData, ExecuteBankWithdrawalData, p2p_body, bank_body,
}
use prestohq_assessment.WithdrawalStore.Transactions.{IsKept, IsSolvent-IsKept}
use prestohq_assessment.Environment.{Environment}
use prestohq_assessment.System.{Operation, perform}
use prestohq_assessment.System.Reach.{perform-Keeps, empty-IsSolvent}

-- The journals that sequences of transactions lead to
pub data Runs (j : Rows) : Rows → Type 0 where
  stop : Runs j j
  then_pending :
      (s : State) (i : PostCreditPendingInput)
      → Runs j s.journal
      → Runs j (transaction (pending_body i) s).1.journal
  then_debit :
      (s : State) (i : PostDebitInput)
      → Runs j s.journal
      → Runs j (transaction (debit_body i) s).1.journal
  then_complete :
      (s : State) (i : CompleteCreditInput)
      → Runs j s.journal
      → Runs j (complete_credit_successful i s).1.journal
  then_reversal :
      (s : State) (i : PostReversalInput)
      → Runs j s.journal
      → Runs j (transaction (reversal_body i) s).1.journal
  then_p2p :
      (s : State) (d : ExecuteP2pWithdrawalData)
      → Runs j s.journal
      → Runs j (transaction (p2p_body d) s).1.journal
  then_bank :
      (s : State) (d : ExecuteBankWithdrawalData)
      → Runs j s.journal
      → Runs j (transaction (bank_body d) s).1.journal

Runs-IsKept : (j : Rows) → IsKept (Runs j)
Runs-IsKept j = record {
  pending = λ i s r. then_pending s i r;
  debit = λ i s r. then_debit s i r;
  complete = λ i s r. then_complete s i r;
  reversal = λ i s r. then_reversal s i r;
  p2p = λ d s r. then_p2p s d r;
  bank = λ d s r. then_bank s d r;
}

-- Every operation of the service, also one that fails half-way, changes the journal by a sequence of
-- whole transactions only.
perform-Runs :
    (env : Environment) (o : Operation) (s : State) → Runs s.journal (perform env o s).journal
perform-Runs env o s = perform-Keeps (Runs s.journal) (Runs-IsKept s.journal) env o s stop

Runs-Keeps : (Q : Rows → Type 0) → IsKept Q → (j j' : Rows) → Q j → Runs j j' → Q j'
Runs-Keeps Q kept j j' h stop = h
Runs-Keeps Q kept j j' h (then_pending s i r) = kept.pending i s (Runs-Keeps Q kept j s.journal h r)
Runs-Keeps Q kept j j' h (then_debit s i r) = kept.debit i s (Runs-Keeps Q kept j s.journal h r)
Runs-Keeps Q kept j j' h (then_complete s i r) =
    kept.complete i s (Runs-Keeps Q kept j s.journal h r)
Runs-Keeps Q kept j j' h (then_reversal s i r) =
    kept.reversal i s (Runs-Keeps Q kept j s.journal h r)
Runs-Keeps Q kept j j' h (then_p2p s d r) = kept.p2p d s (Runs-Keeps Q kept j s.journal h r)
Runs-Keeps Q kept j j' h (then_bank s d r) = kept.bank d s (Runs-Keeps Q kept j s.journal h r)

-- However the transactions of concurrent requests and jobs interleave, from an empty journal no wallet's
-- successful debits come to exceed its successful credits.
pub interleaved_never_overdrawn : (w : String) (j : Rows) → Runs [] j → debits w j ≤ credits w j
interleaved_never_overdrawn w j r =
    (Runs-Keeps IsSolvent IsSolvent-IsKept [] j empty-IsSolvent r).covered w
