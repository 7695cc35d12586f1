-- ===== src/Ledger/Reversals.antt =====
-- `postReversal` of wallet-ledger-debit.service.ts: its outcomes, and the refund of a debit.
use prestohq_assessment.Prelude.{
  ℕ, ◌+◌, String, ◌≡◌, refl, ◌⊎◌, inl, inr, Bool, true, false, Option, none, some, arith,
  Bool-cases, Option-cases, find, str_eq, eq_iff, eq_refl, ◌==◌, append_row, if◌then◌else◌,
  find-append_row-none, sum_by-append_row,
}
use prestohq_assessment.Prelude.Int.{pos, ◌+ℤ◌}
use prestohq_assessment.Errors.{Error}
use prestohq_assessment.Db.{State, WalletTransactionEntity, debit}
use prestohq_assessment.Exec.{Result, ok, err}
use prestohq_assessment.Journal.{
  is_debit, by_id, by_key, balance, credits, debits, new_row, with_row,
}
use prestohq_assessment.Journal.Balance.{
  IsSolvent, unsettled_debit, credits-append_row, debits-append_row, lock_wallet-cases,
}
use prestohq_assessment.Ledger.{
  PostReversalInput, LedgerWriteResult, replayed, bad_amount, not_a_debit, wallet_mismatch,
  amount_mismatch, reversal_data, check_original, reversal_unless, reversal_body,
  post_reversal_credit, rethrow_wallet_missing,
}
use prestohq_assessment.Ledger.Debits.{posted, insert_and_sum-cases}

-- The debit that a reversal names: of this wallet and of this amount.
abbrev pub IsOriginal : PostReversalInput → WalletTransactionEntity → Type 0
IsOriginal i t = (t.type ≡ debit) × (t.wallet_id ≡ i.wallet_id) × (t.amount ≡ i.amount)

module _ (i : PostReversalInput) (s : State) where
  pub check_original-cases :
      (o : Option WalletTransactionEntity)
      → ((e : Error) × (check_original i o s ≡ (err e, s)))
        ⊎ ((check_original i o s ≡ (ok tt, s))
            × ((t : WalletTransactionEntity) × (o ≡ some t) × IsOriginal i t))
  unfolding check_original
  check_original-cases none = inl (not_a_debit, refl)
  check_original-cases (some t) = elim (Bool-cases (is_debit t.type)) [
    | inr other_type ↦ inl (not_a_debit, rw other_type)
    | inl a_debit ↦ elim (Bool-cases (str_eq t.wallet_id i.wallet_id)) [
      | inr other_wallet ↦ inl (wallet_mismatch, rw (a_debit, other_wallet))
      | inl same_wallet ↦ elim (Bool-cases (t.amount == i.amount)) [
        | inr other_amount ↦ inl (amount_mismatch, rw (a_debit, same_wallet, other_amount))
        | inl same_amount ↦ inr (
          rw (a_debit, same_wallet, same_amount),
          (t, refl, (ground arith, ground (arith, eq_iff t.wallet_id i.wallet_id), ground arith)),
        )
      ]
    ]
  ]

  reversal_body-cases :
      find (by_key i.idempotency_key) s.journal ≡ none
      → ((e : Error) × (reversal_body i s ≡ (err e, s)))
        ⊎ (reversal_body i s
            ≡ (ok (posted (reversal_data i) s), with_row (new_row (reversal_data i) s) s))
  unfolding reversal_body reversal_unless
  reversal_body-cases new = elim (lock_wallet-cases i.wallet_id s) [
    | inl (e, absent) ↦ inl (e, rw absent)
    | inr there ↦ elim (insert_and_sum-cases (reversal_data i) s) [
      | inl (e, refused) ↦ inl (e, rw (there, new, refused))
      | inr done ↦ inr (rw (there, new, done))
    ]
  ]

  abbrev Original : Type 0
  Original =
      (t : WalletTransactionEntity) × (find (by_id i.original_debit_id) s.journal ≡ some t)
      × IsOriginal i t

  -- The three outcomes of `postReversal`.
  pub post_reversal-cases :
      ((e : Error) × (post_reversal_credit i s ≡ (err e, s)))
      ⊎ (((t : WalletTransactionEntity) × (post_reversal_credit i s ≡ (ok (replayed t), s))
            × (find (by_key i.idempotency_key) s.journal ≡ some t))
          ⊎ ((post_reversal_credit i s
                ≡ (ok (posted (reversal_data i) s), with_row (new_row (reversal_data i) s) s))
              × Original
              × (find (by_key i.idempotency_key) s.journal ≡ none)
              × ((i.amount == 0) ≡ false)))
  unfolding post_reversal_credit
  post_reversal-cases = elim (Bool-cases (i.amount == 0)) [
    | inl zero_amount ↦ inl (bad_amount, rw zero_amount)
    | inr positive ↦ elim (Option-cases (find (by_key i.idempotency_key) s.journal)) [
      | inr (t, found) ↦ inr (inl (t, rw (positive, found), found))
      | inl new ↦ elim (check_original-cases (find (by_id i.original_debit_id) s.journal)) [
        | inl (e, refused) ↦ inl (e, rw (positive, new, refused))
        | inr (passed, original) ↦ elim (reversal_body-cases new) [
          | inl (e, refused) ↦
              inl (rethrow_wallet_missing i.wallet_id e, rw (positive, new, passed, refused))
          | inr done ↦ inr (inr (rw (positive, new, passed, done), original, new, positive))
        ]
      ]
    ]
  ]

-- What a reversal does to a wallet: its own gains the amount.
abbrev pub reversal_share : PostReversalInput → String → ℕ
reversal_share i w = if str_eq i.wallet_id w then i.amount else 0

module _ (i : PostReversalInput) (s : State) where
  credits-posted_reversal :
      (w : String)
      → credits w (append_row s.journal (new_row (reversal_data i) s))
        ≡ credits w s.journal + reversal_share i w
  credits-posted_reversal w =
      ground (arith, credits-append_row w s.journal (new_row (reversal_data i) s))

  debits-posted_reversal :
      (w : String)
      → debits w (append_row s.journal (new_row (reversal_data i) s)) ≡ debits w s.journal
  debits-posted_reversal w =
      ground (arith, debits-append_row w s.journal (new_row (reversal_data i) s))

  pub balance-posted_reversal :
      (w : String)
      → balance w (append_row s.journal (new_row (reversal_data i) s))
        ≡ balance w s.journal +ℤ pos (reversal_share i w)
  unfolding ◌+ℤ◌
  balance-posted_reversal w = ground (arith, credits-posted_reversal w, debits-posted_reversal w)

  pub posted_reversal-IsSolvent :
      IsSolvent s.journal → IsSolvent (append_row s.journal (new_row (reversal_data i) s))
  posted_reversal-IsSolvent h = record {
    covered = λ w. omega (arith, credits-posted_reversal w, debits-posted_reversal w, h.covered w);
    settled = omega (
      arith,
      sum_by-append_row unsettled_debit s.journal (new_row (reversal_data i) s),
      h.settled,
    );
  }

-- What a reversal may have done, by its result.
abbrev pub Refunded : PostReversalInput → State → LedgerWriteResult → State → Bool → Type 0
Refunded i s r s' false = (s' ≡ s) × (find (by_key i.idempotency_key) s.journal ≡ some r.written)
Refunded i s r s' true =
    ((t : WalletTransactionEntity) × (find (by_id i.original_debit_id) s.journal ≡ some t)
      × IsOriginal i t)
    × (r.balance_after ≡ some (balance i.wallet_id s'.journal))
    × ((w : String) → balance w s'.journal ≡ balance w s.journal +ℤ pos (reversal_share i w))

abbrev pub ReversalOutcome : PostReversalInput → State → Result LedgerWriteResult × State → Type 0
ReversalOutcome i s (err e, s') = s' ≡ s
ReversalOutcome i s (ok r, s') = Refunded i s r s' r.created

pub post_reversal_known :
    (i : PostReversalInput) (s : State) (t : WalletTransactionEntity)
    → (i.amount == 0) ≡ false
    → find (by_key i.idempotency_key) s.journal ≡ some t
    → post_reversal_credit i s ≡ (ok (replayed t), s)
unfolding post_reversal_credit
post_reversal_known i s t positive found = rw (positive, found)

abbrev Retries : PostReversalInput → Result LedgerWriteResult × State → Type 0
Retries i (err e, s') = Unit
Retries i (ok r, s') = post_reversal_credit i s' ≡ (ok (replayed r.written), s')

post_reversal-Retries : (i : PostReversalInput) (s : State) → Retries i (post_reversal_credit i s)
post_reversal-Retries i s = elim (post_reversal-cases i s) [
  | inl (e, refused) ↦ rw refused tt
  | inr (inl (t, old, found)) ↦ rw old old
  | inr (inr (done, _, new, positive)) ↦ rw done (
      post_reversal_known i (with_row (new_row (reversal_data i) s) s) (new_row (reversal_data i) s)
        positive
        (rw
          (find-append_row-none (by_key i.idempotency_key) s.journal (new_row (reversal_data i) s)
            new)
          (rw (eq_refl i.idempotency_key))))
]

-- A retry of a reversal that went through pays nothing more: the same row, and the state as it is.
pub post_reversal_retry :
    (i : PostReversalInput) (s : State) (r : LedgerWriteResult) (s' : State)
    → post_reversal_credit i s ≡ (ok r, s')
    → post_reversal_credit i s' ≡ (ok (replayed r.written), s')
post_reversal_retry i s r s' h = rw h at (post_reversal-Retries i s)
