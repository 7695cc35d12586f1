-- ===== src/Ledger/Credits.antt =====
-- `postPending` of wallet-ledger-credit.service.ts: a pending credit counts for nothing.
use prestohq_assessment.Prelude.{
  String, ◌≡◌, ◌⊎◌, inl, inr, true, false, none, some, arith, Bool-cases, Option-cases, find, ◌==◌,
  append_row, sum_by-append_row,
}
use prestohq_assessment.Errors.{Error}
use prestohq_assessment.Db.{State, WalletTransactionEntity}
use prestohq_assessment.Exec.{ok, err}
use prestohq_assessment.Journal.{by_key, balance, credits, debits, new_row, with_row}
use prestohq_assessment.Journal.Balance.{
  IsSolvent, unsettled_debit, credits-append_row, debits-append_row, lock_wallet-cases,
  insert-cases,
}
use prestohq_assessment.Ledger.{
  PostCreditPendingInput, LedgerWriteResult, replayed, bad_amount, pending_data, pending_unless,
  pending_body, post_credit_pending,
}

abbrev pub awaiting : PostCreditPendingInput → State → LedgerWriteResult
awaiting i s = record { written = new_row (pending_data i) s; created = true; balance_after = none }

module _ (i : PostCreditPendingInput) (s : State) where
  pending_body-cases :
      find (by_key i.idempotency_key) s.journal ≡ none
      → ((e : Error) × (pending_body i s ≡ (err e, s)))
        ⊎ (pending_body i s ≡ (ok (awaiting i s), with_row (new_row (pending_data i) s) s))
  unfolding pending_body pending_unless
  pending_body-cases new = elim (lock_wallet-cases i.wallet_id s) [
    | inl (e, absent) ↦ inl (e, rw absent)
    | inr there ↦ elim (insert-cases (pending_data i) s) [
      | inl (e, refused) ↦ inl (e, rw (there, new, refused))
      | inr (done, _, _) ↦ inr (rw (there, new, done))
    ]
  ]

  -- The three outcomes of `postPending`.
  pub post_pending-cases :
      ((e : Error) × (post_credit_pending i s ≡ (err e, s)))
      ⊎ (((t : WalletTransactionEntity) × (post_credit_pending i s ≡ (ok (replayed t), s))
            × (find (by_key i.idempotency_key) s.journal ≡ some t))
          ⊎ ((post_credit_pending i s
                ≡ (ok (awaiting i s), with_row (new_row (pending_data i) s) s))
              × (find (by_key i.idempotency_key) s.journal ≡ none)
              × ((i.amount == 0) ≡ false)))
  unfolding post_credit_pending
  post_pending-cases = elim (Bool-cases (i.amount == 0)) [
    | inl zero_amount ↦ inl (bad_amount, rw zero_amount)
    | inr positive ↦ elim (Option-cases (find (by_key i.idempotency_key) s.journal)) [
      | inr (t, found) ↦ inr (inl (t, rw (positive, found), found))
      | inl new ↦ elim (pending_body-cases new) [
        | inl (e, refused) ↦ inl (e, rw (positive, new, refused))
        | inr done ↦ inr (inr (rw (positive, new, done), new, positive))
      ]
    ]
  ]

  credits-awaiting :
      (w : String)
      → credits w (append_row s.journal (new_row (pending_data i) s)) ≡ credits w s.journal
  credits-awaiting w = ground (arith, credits-append_row w s.journal (new_row (pending_data i) s))

  debits-awaiting :
      (w : String)
      → debits w (append_row s.journal (new_row (pending_data i) s)) ≡ debits w s.journal
  debits-awaiting w = ground (arith, debits-append_row w s.journal (new_row (pending_data i) s))

  -- A deposit that is not confirmed is worth nothing: whatever its outcome, `postPending` changes no
  -- wallet's balance.
  pub balance-post_pending :
      (w : String) → balance w (post_credit_pending i s).1.journal ≡ balance w s.journal
  balance-post_pending w = elim post_pending-cases [
    | inl (e, refused) ↦ rw refused
    | inr (inl (t, old, _)) ↦ rw old
    | inr (inr (done, _, _)) ↦ rw done (rw (credits-awaiting w, debits-awaiting w))
  ]

  pub awaiting-IsSolvent :
      IsSolvent s.journal → IsSolvent (append_row s.journal (new_row (pending_data i) s))
  awaiting-IsSolvent h = record {
    covered = λ w. omega (arith, credits-awaiting w, debits-awaiting w, h.covered w);
    settled = omega (
      arith,
      sum_by-append_row unsettled_debit s.journal (new_row (pending_data i) s),
      h.settled,
    );
  }
