-- ===== src/WithdrawalStore/Bank.antt =====
-- `executeBankAccept` of prisma-withdrawal.repository.ts: its outcomes.
use prestohq_assessment.Prelude.{
  ◌≡◌, refl, ◌⊎◌, inl, inr, true, none, some, Bool-cases, Option-cases, find, str_eq,
}
use prestohq_assessment.Prelude.Int.{pos, ltb_ℤ, ltb_ℤ_sub}
use prestohq_assessment.Errors.{Error}
use prestohq_assessment.Db.{State, WithdrawalEntity, WalletTransactionEntity}
use prestohq_assessment.Exec.{ok, err, transaction}
use prestohq_assessment.Journal.{balance, credits, debits, new_row, with_row}
use prestohq_assessment.Journal.Balance.{lock_wallet-cases, insert-cases}
use prestohq_assessment.Ledger.{insufficient}
use prestohq_assessment.Ledger.Debits.{Covers}
use prestohq_assessment.WithdrawalStore.Rows.{
  UpdateWithdrawalProviderData, no_change, with_withdrawal, with_update, apply_update,
  by_user_and_key, withdrawal_by_id, create_withdrawal-cases, update_withdrawal_known, find-created,
}
use prestohq_assessment.WithdrawalStore.{
  ExecuteBankWithdrawalData, ExecuteResult, existing_result, bank_row, bank_debit, bank_writes,
  bank_unless, bank_body, execute_bank_accept, rethrow_missing, key_reused,
}

module _ (d : ExecuteBankWithdrawalData) (s : State) where
  abbrev pub after_row : State
  after_row = with_withdrawal (bank_row d s) s

  abbrev pub paid_row : WalletTransactionEntity
  paid_row = new_row (bank_debit d (bank_row d s)) after_row

  abbrev pub links : UpdateWithdrawalProviderData
  links = record no_change { debit_transaction_id = some (some paid_row.id) }

  abbrev pub bank_done : State
  bank_done = with_update (bank_row d s).id links (with_row paid_row after_row)

  abbrev pub bank_result : ExecuteResult
  bank_result = record { withdrawal = apply_update links (bank_row d s); created = true }

  -- What a success found free: the user's key and the identifier.
  pub record Fresh : Type 0 where
    pub new_key : find (by_user_and_key d.user_id d.idempotency_key) s.withdrawals ≡ none
    pub new_id : find (withdrawal_by_id (bank_row d s).id) s.withdrawals ≡ none

  bank_writes-cases :
      ((e : Error) × (s' : State) × (bank_writes d s ≡ (err e, s')))
      ⊎ ((bank_writes d s ≡ (ok bank_result, bank_done)) × Fresh)
  unfolding bank_writes
  bank_writes-cases = elim (create_withdrawal-cases (bank_row d) s) [
    | inl (e, refused) ↦ inl (e, s, rw refused)
    | inr (made, new_key, new_id) ↦ elim (insert-cases (bank_debit d (bank_row d s)) after_row) [
      | inl (e, refused) ↦ inl (e, after_row, rw (made, refused))
      | inr (paid, _, _) ↦ inr (
        rw (
          made,
          paid,
          update_withdrawal_known (bank_row d s).id links (with_row paid_row after_row)
              (bank_row d s) (find-created s.withdrawals (bank_row d s) new_id),
        ),
        record { new_key = new_key; new_id = new_id },
      )
    ]
  ]

  bank_unless-cases :
      ((e : Error) × (s' : State) × (bank_unless d none s ≡ (err e, s')))
      ⊎ ((bank_unless d none s ≡ (ok bank_result, bank_done))
          × Covers d.wallet_id d.amount s
          × Fresh)
  unfolding bank_unless
  bank_unless-cases = elim (lock_wallet-cases d.wallet_id s) [
    | inl (e, absent) ↦ inl (e, s, rw absent)
    | inr there ↦ elim (Bool-cases (ltb_ℤ (balance d.wallet_id s.journal) (pos d.amount))) [
      | inl short ↦ inl (insufficient, s, rw (there, short))
      | inr enough ↦ elim bank_writes-cases [
        | inl (e, s', refused) ↦ inl (e, s', rw (there, enough, refused))
        | inr (done, fresh) ↦ inr (
          rw (there, enough, done),
          ltb_ℤ_sub (credits d.wallet_id s.journal) (debits d.wallet_id s.journal) d.amount enough,
          fresh,
        )
      ]
    ]
  ]

  bank_replay : (w : WithdrawalEntity) → bank_unless d (some w) s ≡ (ok (existing_result w), s)
  unfolding bank_unless
  bank_replay w = refl

  -- The transaction on its own: on any state, rolled back, replayed or done.
  pub bank_transaction-cases :
      ((e : Error) × (transaction (bank_body d) s ≡ (err e, s)))
      ⊎ (((w : WithdrawalEntity) × (transaction (bank_body d) s ≡ (ok (existing_result w), s))
            × (find (by_user_and_key d.user_id d.idempotency_key) s.withdrawals ≡ some w))
          ⊎ ((transaction (bank_body d) s ≡ (ok bank_result, bank_done))
              × Covers d.wallet_id d.amount s
              × Fresh))
  unfolding bank_body
  bank_transaction-cases =
      elim (Option-cases (find (by_user_and_key d.user_id d.idempotency_key) s.withdrawals)) [
        | inr (w, found) ↦ inr (inl (w, rw (found, bank_replay w), found))
        | inl new ↦ elim bank_unless-cases [
          | inl (e, s', refused) ↦ inl (e, rw (new, refused))
          | inr (done, covered, fresh) ↦ inr (inr (rw (new, done), covered, fresh))
        ]
      ]

  abbrev Known : WithdrawalEntity → Type 0
  Known w = find (by_user_and_key d.user_id d.idempotency_key) s.withdrawals ≡ some w

  -- The three outcomes of `executeBankAccept`.
  pub execute_bank-cases :
      ((e : Error) × (execute_bank_accept d s ≡ (err e, s)))
      ⊎ (((w : WithdrawalEntity) × (execute_bank_accept d s ≡ (ok (existing_result w), s))
            × Known w
            × (str_eq w.request_body_hash d.request_body_hash ≡ true))
          ⊎ ((execute_bank_accept d s ≡ (ok bank_result, bank_done))
              × Covers d.wallet_id d.amount s
              × Fresh))
  unfolding execute_bank_accept
  execute_bank-cases =
      elim (Option-cases (find (by_user_and_key d.user_id d.idempotency_key) s.withdrawals)) [
        | inr (w, found) ↦ elim (Bool-cases (str_eq w.request_body_hash d.request_body_hash)) [
          | inl same ↦ inr (inl (w, rw (found, same), found, same))
          | inr other ↦ inl (key_reused, rw (found, other))
        ]
        | inl new ↦ elim bank_transaction-cases [
          | inl (e, refused) ↦ inl (rethrow_missing e, rw (new, refused))
          | inr (inl (w, done, found)) ↦ absurd (cc (new, found))
          | inr (inr (done, covered, fresh)) ↦ inr (inr (rw (new, done), covered, fresh))
        ]
      ]
