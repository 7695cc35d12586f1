-- ===== src/Ledger/Recompletion.antt =====
-- `completeSuccessful` of wallet-ledger-credit.service.ts, called again, and on a row that waits.
use mathlib.Core.Path.{subst}
use prestohq_assessment.Prelude.{
  sym, ◌≡◌, refl, inl, inr, true, false, some, arith, find, find_fits, update, str_eq-true,
  find-update_self,
}
use prestohq_assessment.Db.{State, WalletTransactionEntity, tx_pending, tx_successful}
use prestohq_assessment.Exec.{Result, ok, err}
use prestohq_assessment.Journal.{by_id, set_status, update_status, lock_wallet}
use prestohq_assessment.Ledger.{
  CompleteCreditInput, LedgerWriteResult, complete_in, complete_body, complete_credit_successful,
}
use prestohq_assessment.Ledger.Completion.{
  completed, settled_result, Names, same_id, found_by_own_id, complete-cases,
}

module _ (i : CompleteCreditInput) (s : State) (t : WalletTransactionEntity) where
  complete_known :
      Names i s t
      → t.status ≡ tx_successful
      → complete_credit_successful i s ≡ (ok (settled_result t false s), s)
  unfolding complete_credit_successful complete_body complete_in
  complete_known named is =
      rw (named.found, (str_eq-true named.of_wallet), named.lockable, named.found, is)

  -- Once completed, the row is found completed.
  Names-completed : Names i s t → Names i (completed t.id s) (set_status tx_successful t)
  unfolding lock_wallet
  Names-completed named = record {
    found =
        subst
          (λ k.
            find (by_id i.transaction_id) (update (by_id k) (set_status tx_successful) s.journal)
            ≡ some (set_status tx_successful t))
          (sym (same_id i s t named))
          (find-update_self (by_id i.transaction_id) (set_status tx_successful) s.journal t
            named.found (find_fits (by_id i.transaction_id) s.journal t named.found));
    of_wallet = named.of_wallet;
    lockable = ground (arith, named.lockable);
  }

abbrev Retries : CompleteCreditInput → Result LedgerWriteResult × State → Type 0
Retries i (err e, s') = Unit
Retries i (ok r, s') =
    complete_credit_successful i s' ≡ (ok (settled_result r.written false s'), s')

complete-Retries :
    (i : CompleteCreditInput) (s : State) → Retries i (complete_credit_successful i s)
complete-Retries i s = elim (complete-cases i s) [
  | inl (e, refused) ↦ rw refused tt
  | inr (inl (t, old, named, is)) ↦ rw old old
  | inr (inr (t, done, named, is)) ↦ rw done (
      complete_known i (completed t.id s) (set_status tx_successful t) (Names-completed i s t named)
        refl)
]

-- A second completion of the same row, as after a second delivery of a webhook, credits nothing: it
-- returns the row of the first with its wallet's balance, and leaves the state as it is.
pub complete_retry :
    (i : CompleteCreditInput) (s : State) (r : LedgerWriteResult) (s' : State)
    → complete_credit_successful i s ≡ (ok r, s')
    → complete_credit_successful i s' ≡ (ok (settled_result r.written false s'), s')
complete_retry i s r s' h = rw h at (complete-Retries i s)

update_status_known :
    (t : WalletTransactionEntity) (s : State)
    → find (by_id t.id) s.journal ≡ some t
    → update_status t.id tx_successful s ≡ (ok (set_status tx_successful t), completed t.id s)
unfolding update_status
update_status_known t s found = rw (found, update_status)

-- A pending row of the expected wallet, which exists, is completed: the call succeeds and returns the row
-- as successful, with the balance after it.
pub complete_accepted :
    (i : CompleteCreditInput) (s : State) (t : WalletTransactionEntity)
    → Names i s t
    → t.status ≡ tx_pending
    → complete_credit_successful i s
      ≡ (ok (settled_result (set_status tx_successful t) true (completed t.id s)), completed t.id s)
unfolding complete_credit_successful complete_body complete_in
complete_accepted i s t named waits = rw (
  named.found,
  str_eq-true named.of_wallet,
  named.lockable,
  named.found,
  waits,
  update_status_known t s (found_by_own_id i s t named),
)
