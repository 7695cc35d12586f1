-- ===== src/Ledger/Completion.antt =====
-- `completeSuccessful` of wallet-ledger-credit.service.ts: a pending credit is completed once.
use mathlib.Core.Path.{subst}
use prestohq_assessment.Prelude.{
  ℕ, sym, ◌+◌, String, ◌≡◌, refl, ◌⊎◌, inl, inr, Bool, true, false, some, arith, Bool-cases,
  Option-cases, find, find_fits, find-le-sum_by, update, str_eq, eq_iff, if◌then◌else◌,
  sum_by-update,
}
use prestohq_assessment.Prelude.Int.{pos, ◌+ℤ◌}
use prestohq_assessment.Errors.{Error}
use prestohq_assessment.Db.{
  State, WalletTransactionEntity, WalletTxStatus, tx_pending, tx_successful, tx_failed,
}
use prestohq_assessment.Exec.{Result, ok, err}
use prestohq_assessment.Journal.{
  by_id, balance, credits, debits, is_credit, set_status, update_status, lock_wallet,
}
use prestohq_assessment.Journal.Balance.{
  IsSolvent, unsettled_debit, credits-set_status, debits-set_status, lock_wallet-cases,
}
use prestohq_assessment.Ledger.{
  CompleteCreditInput, LedgerWriteResult, complete_in, complete_body, complete_credit_successful,
  tx_missing, tx_mismatch, tx_not_pending,
}

abbrev pub completed : String → State → State
completed id s = record s { journal = update (by_id id) (set_status tx_successful) s.journal }

abbrev pub settled_result : WalletTransactionEntity → Bool → State → LedgerWriteResult
settled_result t c s = record {
  written = t;
  created = c;
  balance_after = some (balance t.wallet_id s.journal);
}

module _ (i : CompleteCreditInput) (s : State) where
  -- The row of a call that goes through.
  pub record Names (t : WalletTransactionEntity) : Type 0 where
    pub found : find (by_id i.transaction_id) s.journal ≡ some t
    pub of_wallet : t.wallet_id ≡ i.expected_wallet_id
    pub lockable : lock_wallet t.wallet_id s ≡ (ok tt, s)

  complete_in-cases :
      (t : WalletTransactionEntity) (st : WalletTxStatus)
      → t.status ≡ st
      → find (by_id t.id) s.journal ≡ some t
      → ((e : Error) × (complete_in st t s ≡ (err e, s)))
        ⊎ (((complete_in st t s ≡ (ok (settled_result t false s), s)) × (t.status ≡ tx_successful))
            ⊎ ((complete_in st t s ≡ (
              ok (settled_result (set_status tx_successful t) true (completed t.id s)),
              completed t.id s,
            ))
                × (t.status ≡ tx_pending)))
  unfolding complete_in update_status
  complete_in-cases t tx_successful is found = inr (inl (refl, is))
  complete_in-cases t tx_pending is found = inr (inr (rw (found, update_status), is))
  complete_in-cases t tx_failed is found = inl (tx_not_pending, refl)

  pub same_id : (t : WalletTransactionEntity) → Names t → t.id ≡ i.transaction_id
  same_id t named =
      (eq_iff t.id i.transaction_id).0 (find_fits (by_id i.transaction_id) s.journal t named.found)

  pub found_by_own_id :
      (t : WalletTransactionEntity) → Names t → find (by_id t.id) s.journal ≡ some t
  found_by_own_id t named =
      subst (λ k. find (by_id k) s.journal ≡ some t) (sym (same_id t named)) named.found

  -- The three outcomes of `completeSuccessful`.
  pub complete-cases :
      ((e : Error) × (complete_credit_successful i s ≡ (err e, s)))
      ⊎ (((t : WalletTransactionEntity) × (complete_credit_successful i s
              ≡ (ok (settled_result t false s), s))
            × Names t
            × (t.status ≡ tx_successful))
          ⊎ ((t : WalletTransactionEntity) × (complete_credit_successful i s ≡ (
            ok (settled_result (set_status tx_successful t) true (completed t.id s)),
            completed t.id s,
          ))
              × Names t
              × (t.status ≡ tx_pending)))
  unfolding complete_credit_successful complete_body
  complete-cases = elim (Option-cases (find (by_id i.transaction_id) s.journal)) [
    | inl absent ↦ inl (tx_missing, rw absent)
    | inr (t, found) ↦ elim (Bool-cases (str_eq t.wallet_id i.expected_wallet_id)) [
      | inr other_wallet ↦ inl (tx_mismatch, rw (found, other_wallet))
      | inl same_wallet ↦ elim (lock_wallet-cases t.wallet_id s) [
        | inl (e, no_lock) ↦ inl (e, rw (found, same_wallet, no_lock))
        | inr there ↦
            let named : Names t = record {
              found = found;
              of_wallet = (eq_iff t.wallet_id i.expected_wallet_id).0 same_wallet;
              lockable = there;
            } in
            elim (complete_in-cases t t.status refl (found_by_own_id t named)) [
              | inl (e, refused) ↦ inl (e, rw (found, same_wallet, there, found, refused))
              | inr (inl (done, is)) ↦
                  inr (inl (t, rw (found, same_wallet, there, found, done), named, is))
              | inr (inr (done, is)) ↦
                  inr (inr (t, rw (found, same_wallet, there, found, done), named, is))
            ]
      ]
    ]
  ]

-- What completing a pending row is worth to a wallet.
abbrev pub completion_share : WalletTransactionEntity → String → ℕ
completion_share t w = if str_eq t.wallet_id w then t.amount else 0

module _ (s : State) (t : WalletTransactionEntity) where
  module _ (found : find (by_id t.id) s.journal ≡ some t) (is : t.status ≡ tx_pending) where
    -- No debit waits, so that a row which waits is a credit.
    pending-is_credit : IsSolvent s.journal → is_credit t.type ≡ true
    pending-is_credit h =
        ground (arith, find-le-sum_by unsettled_debit (by_id t.id) s.journal t found, h.settled)

    credits-completed :
        (w : String)
        → is_credit t.type ≡ true
        → credits w (completed t.id s).journal ≡ credits w s.journal + completion_share t w
    credits-completed w a_credit =
        ground (arith, credits-set_status w t.id tx_successful s.journal t found)

    debits-completed :
        (w : String)
        → is_credit t.type ≡ true
        → debits w (completed t.id s).journal ≡ debits w s.journal
    debits-completed w a_credit =
        ground (arith, debits-set_status w t.id tx_successful s.journal t found)

    pub balance-completed :
        (w : String)
        → is_credit t.type ≡ true
        → balance w (completed t.id s).journal ≡ balance w s.journal +ℤ pos (completion_share t w)
    unfolding ◌+ℤ◌
    balance-completed w a_credit =
        ground (arith, credits-completed w a_credit, debits-completed w a_credit)

    completed-IsSolvent : IsSolvent s.journal → IsSolvent (completed t.id s).journal
    completed-IsSolvent h = record {
      covered = λ w. omega (
        arith,
        credits-completed w (pending-is_credit h),
        debits-completed w (pending-is_credit h),
        h.covered w,
      );
      settled = ground (
        arith,
        sum_by-update unsettled_debit (by_id t.id) (set_status tx_successful) s.journal t found,
        h.settled,
      );
    }

module _ (i : CompleteCreditInput) (s : State) where
  pub complete-IsSolvent :
      IsSolvent s.journal → IsSolvent (complete_credit_successful i s).1.journal
  complete-IsSolvent h = elim (complete-cases i s) [
    | inl (e, refused) ↦ rw refused h
    | inr (inl (t, old, _, _)) ↦ rw old h
    | inr (inr (t, done, named, is)) ↦
        rw done (completed-IsSolvent s t (found_by_own_id i s t named) is h)
  ]

-- What completing a credit may have done, by its result.
abbrev pub Completed : CompleteCreditInput → State → LedgerWriteResult → State → Bool → Type 0
Completed i s r s' false = (s' ≡ s) × (r.written.status ≡ tx_successful)
Completed i s r s' true =
    (t : WalletTransactionEntity) × (find (by_id i.transaction_id) s.journal ≡ some t)
    × (t.status ≡ tx_pending)
    × (t.wallet_id ≡ i.expected_wallet_id)
    × (r.written ≡ set_status tx_successful t)
    × ((w : String) → balance w s'.journal ≡ balance w s.journal +ℤ pos (completion_share t w))

abbrev pub CompletionOutcome :
    CompleteCreditInput → State → Result LedgerWriteResult × State → Type 0
CompletionOutcome i s (err e, s') = s' ≡ s
CompletionOutcome i s (ok r, s') = Completed i s r s' r.created

-- From a sound journal `completeSuccessful` fails and changes nothing; or finds the row completed and
-- changes nothing; or turns the named pending row of the expected wallet successful, and then that
-- wallet's balance, and no other, has grown by the row's amount.
pub complete-CompletionOutcome :
    (i : CompleteCreditInput) (s : State)
    → IsSolvent s.journal
    → CompletionOutcome i s (complete_credit_successful i s)
complete-CompletionOutcome i s h = elim (complete-cases i s) [
  | inl (e, refused) ↦ rw refused
  | inr (inl (t, old, _, is)) ↦ rw old (refl, is)
  | inr (inr (t, done, named, is)) ↦
      let found : find (by_id t.id) s.journal ≡ some t = found_by_own_id i s t named in
      rw done (
        t,
        named.found,
        is,
        named.of_wallet,
        refl,
        λ w. balance-completed s t found is w (pending-is_credit s t found is h),
      )
]
