-- ===== src/System/Reconciliation.antt =====
-- Withdrawals and the journal agree in every state that the service reaches.
use prestohq_assessment.Prelude.{
  ℕ, String, ◌≡◌, ◌∙◌, ap, true, some, List, [], find, sum_by, find-le-sum_by, eq_refl, All-find,
  arith,
}
use prestohq_assessment.Db.{
  State, WalletTransactionEntity, WithdrawalEntity, WithdrawalStatus, pending, processing,
  successful, failed, reversed,
}
use prestohq_assessment.Keeping.{Keeps}
use prestohq_assessment.Journal.{Rows, by_id, by_key}
use prestohq_assessment.Journal.Balance.{InTables}
use prestohq_assessment.Journal.Books.{repays, repaid}
use prestohq_assessment.Journal.Accounting.{none-repaid, repaid_in}
use prestohq_assessment.WithdrawalStore.Rows.{withdrawal_by_id}
use prestohq_assessment.WithdrawalStore.Operations.{IsKept-IsKeptByCalls}
use prestohq_assessment.WithdrawalStore.Reconciled.{Reconciled, Standing, Pays, refund_key_of}
use prestohq_assessment.Environment.{Environment}
use prestohq_assessment.Provider.{FlutterwaveProvider}
use prestohq_assessment.Payouts.{process_payout, process_settle}
use prestohq_assessment.Payouts.Soundness.{process_payout-Keeps, process_settle-Keeps}
use prestohq_assessment.Payouts.Effects.{process_payout-Effect, process_settle-Effect}
use prestohq_assessment.System.{Reachable}
use prestohq_assessment.System.Reach.{Reachable-KeepsInTables}
use prestohq_assessment.System.History.{IsKeyed}
use prestohq_assessment.System.Books.{IsBooked-kept, empty-IsBooked, empty-IsKeyed}
use prestohq_assessment.Journal.Books.{IsBooked}
use prestohq_assessment.System.Reconciling.{IsReconciled, IsKeyed-transactions}
use prestohq_assessment.System.Withdrawing.{requests-IsReconciled}
use prestohq_assessment.System.Refunding.{Effect-IsReconciled}

payout-IsReconciled :
    (flutterwave : FlutterwaveProvider) (id : String)
    → Keeps (InTables IsReconciled) (process_payout flutterwave id)
payout-IsReconciled flutterwave id s r =
    Effect-IsReconciled (process_payout-Effect flutterwave id s)
      (process_payout-Keeps IsKeyed (IsKept-IsKeptByCalls IsKeyed IsKeyed-transactions) flutterwave
        id s r.keyed)
      (process_payout-Keeps IsBooked IsBooked-kept flutterwave id s r.books) r

settle-IsReconciled :
    (flutterwave : FlutterwaveProvider) (id : String)
    → Keeps (InTables IsReconciled) (process_settle flutterwave id)
settle-IsReconciled flutterwave id s r =
    Effect-IsReconciled (process_settle-Effect flutterwave id s)
      (process_settle-Keeps IsKeyed (IsKept-IsKeptByCalls IsKeyed IsKeyed-transactions) flutterwave
        id s r.keyed)
      (process_settle-Keeps IsBooked IsBooked-kept flutterwave id s r.books) r

-- What has to be paid back for a withdrawal of an amount: all of it if it is REVERSED, else nothing.
abbrev pub refund_due : WithdrawalStatus → ℕ → ℕ
refund_due pending amount = 0
refund_due processing amount = 0
refund_due successful amount = 0
refund_due failed amount = 0
refund_due reversed amount = amount

module _ (rows : Rows) (ws : List WithdrawalEntity) (r : IsReconciled rows ws)
    (w : WithdrawalEntity) (own : Reconciled rows w) where
  repaid_due :
      (status : WithdrawalStatus)
      → Standing status rows w own.debit_id
      → sum_by (repaid own.debit_id) rows ≡ refund_due status w.amount
  repaid_due pending h = none-repaid own.debit_id own.original rows r.books.fit h
  repaid_due processing h = none-repaid own.debit_id own.original rows r.books.fit h
  repaid_due successful h = none-repaid own.debit_id own.original rows r.books.fit h
  repaid_due failed h = none-repaid own.debit_id own.original rows r.books.fit h
  repaid_due reversed (t, found, of, amount) =
      let names : repays t.reverses_transaction_id own.debit_id ≡ true =
        ap (λ o. repays o own.debit_id) of ∙ eq_refl own.debit_id in
      let paid : repaid own.debit_id t ≡ t.amount = rw names in
      omega (
        arith,
        find-le-sum_by (repaid own.debit_id) (by_key (refund_key_of own.debit_id)) rows t found,
        repaid_in own.debit_id own.original rows rows own.found r.keyed.keys r.books.fit
            r.books.backed,
        paid,
        amount,
        own.pays.2,
      )

-- The debit of a withdrawal in the journal, and what the journal pays back of it
abbrev pub IsSettled : State → WithdrawalEntity → Type 0
IsSettled s w =
    (debit_id : String) × (o : WalletTransactionEntity) × (w.debit_transaction_id ≡ some debit_id)
    × (find (by_id debit_id) s.journal ≡ some o)
    × Pays o w
    × (sum_by (repaid debit_id) s.journal ≡ refund_due w.status w.amount)

empty-IsReconciled : IsReconciled [] []
empty-IsReconciled = record {
  keyed = empty-IsKeyed;
  books = empty-IsBooked;
  refund_keys = tt;
  ids = tt;
  each = tt;
}

-- In every state that the service reaches from one with an empty journal and no withdrawals, by
-- transactions and jobs that run one after another, every withdrawal names a row of the journal that is a
-- debit of its wallet and its amount on its behalf; what all rows of the journal pay back of that debit
-- is the whole amount if the withdrawal is REVERSED, and nothing if it is not.
pub withdrawals-IsSettled :
    (env : Environment) (first s : State) (id : String) (w : WithdrawalEntity)
    → first.journal ≡ []
    → first.withdrawals ≡ []
    → Reachable env first s
    → find (withdrawal_by_id id) s.withdrawals ≡ some w
    → IsSettled s w
withdrawals-IsSettled env first s id w no_rows no_withdrawals run found =
    let r : IsReconciled s.journal s.withdrawals =
      Reachable-KeepsInTables IsReconciled requests-IsReconciled payout-IsReconciled
        settle-IsReconciled env first s (rw (no_rows, no_withdrawals) empty-IsReconciled) run in
    let own : Reconciled s.journal w =
      All-find (Reconciled s.journal) (withdrawal_by_id id) s.withdrawals w found r.each in
    (
      own.debit_id,
      own.original,
      own.named,
      own.found,
      own.pays,
      repaid_due s.journal s.withdrawals r w own w.status own.standing,
    )
