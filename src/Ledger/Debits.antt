-- ===== src/Ledger/Debits.antt =====
-- `postSuccessful` of wallet-ledger-debit.service.ts: its outcomes, and what they do to balances.
use prestohq_assessment.Prelude.{
  ℕ, ◌+◌, ◌≤◌, String, ◌≡◌, ◌⊎◌, inl, inr, Bool, true, false, none, some, arith, Bool-cases,
  Option-cases, find, str_eq, eq_iff, ◌==◌, append_row, sum_by-append_row, if◌then◌else◌,
}
use prestohq_assessment.Prelude.Int.{pos, ltb_ℤ, ltb_ℤ_sub, ◌-ℤ◌}
use prestohq_assessment.Errors.{Error}
use prestohq_assessment.Db.{State, WalletTransactionEntity}
use prestohq_assessment.Exec.{Result, ok, err, transaction}
use prestohq_assessment.Journal.{
  CreateWalletTransactionData, by_key, balance, credits, debits, new_row, with_row,
}
use prestohq_assessment.Journal.Balance.{
  IsSolvent, unsettled_debit, credits-append_row, debits-append_row, insert-cases,
  lock_wallet-cases,
}
use prestohq_assessment.Ledger.{
  PostDebitInput, LedgerWriteResult, replayed, bad_amount, debit_data, insert_and_sum, insufficient,
  debit_unless, debit_body, post_debit_successful, rethrow_wallet_missing,
}

-- The result of a write, with the balance summed after it.
abbrev pub posted : CreateWalletTransactionData → State → LedgerWriteResult
posted d s =
    let row = new_row d s in
    record {
      written = row;
      created = true;
      balance_after = some (balance d.wallet_id (append_row s.journal row));
    }

pub insert_and_sum-cases :
    (d : CreateWalletTransactionData) (s : State)
    → ((e : Error) × (insert_and_sum d s ≡ (err e, s)))
      ⊎ (insert_and_sum d s ≡ (ok (posted d s), with_row (new_row d s) s))
insert_and_sum-cases d s = elim (insert-cases d s) [
  | inl (e, refused) ↦ inl (e, rw refused)
  | inr (done, _, _) ↦ inr (rw done)
]

-- A wallet holds at least `n`: the test of the services, on the two sums.
abbrev pub Covers : String → ℕ → State → Type 0
Covers w n s = debits w s.journal + n ≤ credits w s.journal

module _ (i : PostDebitInput) (s : State) where
  abbrev HasFunds : Type 0
  HasFunds = Covers i.wallet_id i.amount s

  debit_unless-cases :
      ((e : Error) × (debit_unless i none s ≡ (err e, s)))
      ⊎ ((debit_unless i none s
            ≡ (ok (posted (debit_data i) s), with_row (new_row (debit_data i) s) s))
          × HasFunds)
  unfolding debit_unless
  debit_unless-cases = elim (Bool-cases (ltb_ℤ (balance i.wallet_id s.journal) (pos i.amount))) [
    | inl short ↦ inl (insufficient, rw short)
    | inr enough ↦ elim (insert_and_sum-cases (debit_data i) s) [
      | inl (e, refused) ↦ inl (e, rw (enough, refused))
      | inr done ↦ inr (
        rw (enough, done),
        ltb_ℤ_sub (credits i.wallet_id s.journal) (debits i.wallet_id s.journal) i.amount enough,
      )
    ]
  ]

  debit_body-cases :
      find (by_key i.idempotency_key) s.journal ≡ none
      → ((e : Error) × (debit_body i s ≡ (err e, s)))
        ⊎ ((debit_body i s ≡ (ok (posted (debit_data i) s), with_row (new_row (debit_data i) s) s))
            × HasFunds)
  unfolding debit_body
  debit_body-cases new = elim (lock_wallet-cases i.wallet_id s) [
    | inl (e, absent) ↦ inl (e, rw absent)
    | inr there ↦ elim debit_unless-cases [
      | inl (e, refused) ↦ inl (e, rw (there, new, refused))
      | inr (done, covered) ↦ inr (rw (there, new, done), covered)
    ]
  ]

  -- The three outcomes of `postSuccessful`: refused, replayed, or a new row.
  pub post_debit-cases :
      ((e : Error) × (post_debit_successful i s ≡ (err e, s)))
      ⊎ (((t : WalletTransactionEntity) × (post_debit_successful i s ≡ (ok (replayed t), s))
            × (find (by_key i.idempotency_key) s.journal ≡ some t))
          ⊎ ((post_debit_successful i s
                ≡ (ok (posted (debit_data i) s), with_row (new_row (debit_data i) s) s))
              × HasFunds
              × (find (by_key i.idempotency_key) s.journal ≡ none)
              × ((i.amount == 0) ≡ false)))
  unfolding post_debit_successful
  post_debit-cases = elim (Bool-cases (i.amount == 0)) [
    | inl zero_amount ↦ inl (bad_amount, rw zero_amount)
    | inr positive ↦ elim (Option-cases (find (by_key i.idempotency_key) s.journal)) [
      | inr (t, found) ↦ inr (inl (t, rw (positive, found), found))
      | inl new ↦ elim (debit_body-cases new) [
        | inl (e, refused) ↦ inl (rethrow_wallet_missing i.wallet_id e, rw (positive, new, refused))
        | inr (done, covered) ↦ inr (inr (rw (positive, new, done), covered, new, positive))
      ]
    ]
  ]

-- What a debit does to a wallet: its own loses the amount.
abbrev pub debit_share : PostDebitInput → String → ℕ
debit_share i w = if str_eq i.wallet_id w then i.amount else 0

module _ (i : PostDebitInput) (s : State) where
  credits-posted_debit :
      (w : String)
      → credits w (append_row s.journal (new_row (debit_data i) s)) ≡ credits w s.journal
  credits-posted_debit w = ground (arith, credits-append_row w s.journal (new_row (debit_data i) s))

  debits-posted_debit :
      (w : String)
      → debits w (append_row s.journal (new_row (debit_data i) s))
        ≡ debits w s.journal + debit_share i w
  debits-posted_debit w = ground (arith, debits-append_row w s.journal (new_row (debit_data i) s))

  posted_debit-IsSolvent :
      Covers i.wallet_id i.amount s
      → IsSolvent s.journal
      → IsSolvent (append_row s.journal (new_row (debit_data i) s))
  posted_debit-IsSolvent covered h = record {
    covered = λ w.
        ground
          (arith, credits-posted_debit w, debits-posted_debit w, eq_iff i.wallet_id w, h.covered w);
    settled =
        omega (
          arith,
          sum_by-append_row unsettled_debit s.journal (new_row (debit_data i) s),
          h.settled,
        );
  }

  -- Whatever the request and the outcome, `postSuccessful` leaves no wallet overdrawn if none was.
  pub debit_transaction-IsSolvent :
      IsSolvent s.journal → IsSolvent (transaction (debit_body i) s).1.journal
  unfolding debit_body debit_unless
  debit_transaction-IsSolvent h = elim (lock_wallet-cases i.wallet_id s) [
    | inl (e, absent) ↦ rw absent h
    | inr there ↦ elim (Option-cases (find (by_key i.idempotency_key) s.journal)) [
      | inr (t, old) ↦ rw (there, old) h
      | inl new ↦ elim (debit_body-cases i s new) [
        | inl (e, refused) ↦ rw refused h
        | inr (done, covered) ↦ rw done (posted_debit-IsSolvent covered h)
      ]
    ]
  ]

-- What a debit may have done, by its result: nothing on an error; nothing on a replay, which returns
-- the row of the key; else its wallet has lost the amount, which it had, and no other wallet has
-- changed.
abbrev pub Debited : PostDebitInput → State → LedgerWriteResult → State → Bool → Type 0
Debited i s r s' false = (s' ≡ s) × (find (by_key i.idempotency_key) s.journal ≡ some r.written)
Debited i s r s' true =
    (debits i.wallet_id s.journal + i.amount ≤ credits i.wallet_id s.journal)
    × (r.balance_after ≡ some (balance i.wallet_id s'.journal))
    × ((w : String) → balance w s'.journal ≡ balance w s.journal -ℤ pos (debit_share i w))

abbrev pub DebitOutcome : PostDebitInput → State → Result LedgerWriteResult × State → Type 0
DebitOutcome i s (err e, s') = s' ≡ s
DebitOutcome i s (ok r, s') = Debited i s r s' r.created
