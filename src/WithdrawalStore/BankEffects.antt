-- ===== src/WithdrawalStore/BankEffects.antt =====
-- What the acceptance of a bank withdrawal does: the wallet is debited at once, and the withdrawal
-- stands as PROCESSING with the debit's identifier.
use prestohq_assessment.Prelude.{
  ℕ, ◌+◌, ◌≤◌, String, ◌≡◌, refl, inl, inr, Bool, true, false, some, arith, find, str_eq, eq_iff,
  eq_refl, if◌then◌else◌, sum_by-append_row,
}
use prestohq_assessment.Prelude.Int.{pos, ◌-ℤ◌}
use prestohq_assessment.Db.{State, WithdrawalEntity, processing}
use prestohq_assessment.Exec.{Result, ok, err, transaction}
use prestohq_assessment.Journal.{balance, credits, debits}
use prestohq_assessment.Journal.Balance.{
  IsSolvent, unsettled_debit, credits-append_row, debits-append_row,
}
use prestohq_assessment.Ledger.Debits.{Covers}
use prestohq_assessment.WithdrawalStore.{
  ExecuteBankWithdrawalData, ExecuteResult, existing_result, bank_row, bank_body,
  execute_bank_accept,
}
use prestohq_assessment.WithdrawalStore.Rows.{by_user_and_key, find-created_updated}
use prestohq_assessment.WithdrawalStore.Bank.{
  paid_row, links, bank_done, bank_result, bank_transaction-cases, execute_bank-cases,
}

abbrev pub charged : ExecuteBankWithdrawalData → String → ℕ
charged d w = if str_eq d.wallet_id w then d.amount else 0

module _ (d : ExecuteBankWithdrawalData) (s : State) where
  credits-bank_done : (w : String) → credits w (bank_done d s).journal ≡ credits w s.journal
  credits-bank_done w = ground (arith, credits-append_row w s.journal (paid_row d s))

  debits-bank_done :
      (w : String) → debits w (bank_done d s).journal ≡ debits w s.journal + charged d w
  debits-bank_done w = ground (arith, debits-append_row w s.journal (paid_row d s))

  pub balance-bank_done :
      (w : String) → balance w (bank_done d s).journal ≡ balance w s.journal -ℤ pos (charged d w)
  unfolding ◌-ℤ◌
  balance-bank_done w = ground (arith, credits-bank_done w, debits-bank_done w)

  bank_done-IsSolvent :
      Covers d.wallet_id d.amount s → IsSolvent s.journal → IsSolvent (bank_done d s).journal
  bank_done-IsSolvent enough h = record {
    covered = λ w.
        ground (arith, credits-bank_done w, debits-bank_done w, eq_iff d.wallet_id w, h.covered w);
    settled = omega (arith, sum_by-append_row unsettled_debit s.journal (paid_row d s), h.settled);
  }

  pub bank_transaction-IsSolvent :
      IsSolvent s.journal → IsSolvent (transaction (bank_body d) s).1.journal
  bank_transaction-IsSolvent h = elim (bank_transaction-cases d s) [
    | inl (e, refused) ↦ rw refused h
    | inr (inl (w, old, _)) ↦ rw old h
    | inr (inr (done, enough, _)) ↦ rw done (bank_done-IsSolvent enough h)
  ]

-- What an acceptance may have done, by its result.
abbrev pub Accepted : ExecuteBankWithdrawalData → State → ExecuteResult → State → Bool → Type 0
Accepted d s r s' false =
    (s' ≡ s)
    × (find (by_user_and_key d.user_id d.idempotency_key) s.withdrawals ≡ some r.withdrawal)
    × (r.withdrawal.request_body_hash ≡ d.request_body_hash)
Accepted d s r s' true =
    (debits d.wallet_id s.journal + d.amount ≤ credits d.wallet_id s.journal)
    × (r.withdrawal.status ≡ processing)
    × (find (by_user_and_key d.user_id d.idempotency_key) s'.withdrawals ≡ some r.withdrawal)
    × ((w : String) → balance w s'.journal ≡ balance w s.journal -ℤ pos (charged d w))

abbrev pub BankOutcome : ExecuteBankWithdrawalData → State → Result ExecuteResult × State → Type 0
BankOutcome d s (err e, s') = s' ≡ s
BankOutcome d s (ok r, s') = Accepted d s r s' r.created

-- `executeBankAccept` is atomic: it fails and changes nothing; or replays the withdrawal that has the
-- user's key and the same body hash, and changes nothing; or debits the wallet, which had the amount,
-- and no other, and stores the withdrawal as PROCESSING under the user's key.
pub execute_bank-BankOutcome :
    (d : ExecuteBankWithdrawalData) (s : State) → BankOutcome d s (execute_bank_accept d s)
execute_bank-BankOutcome d s = elim (execute_bank-cases d s) [
  | inl (e, refused) ↦ rw refused
  | inr (inl (w, old, found, same)) ↦ rw old (refl, found, (eq_iff _ _).0 same)
  | inr (inr (done, enough, fresh)) ↦ rw done (
    enough,
    refl,
    find-created_updated s.withdrawals (bank_row d s) (links d s) fresh.new_id fresh.new_key,
    balance-bank_done d s,
  )
]

abbrev Retries : ExecuteBankWithdrawalData → Result ExecuteResult × State → Type 0
Retries d (err e, s') = Unit
Retries d (ok r, s') = execute_bank_accept d s' ≡ (ok (existing_result r.withdrawal), s')

execute_bank_known :
    (d : ExecuteBankWithdrawalData) (s : State) (w : WithdrawalEntity)
    → find (by_user_and_key d.user_id d.idempotency_key) s.withdrawals ≡ some w
    → str_eq w.request_body_hash d.request_body_hash ≡ true
    → execute_bank_accept d s ≡ (ok (existing_result w), s)
unfolding execute_bank_accept
execute_bank_known d s w found same = rw (found, same)

execute_bank-Retries :
    (d : ExecuteBankWithdrawalData) (s : State) → Retries d (execute_bank_accept d s)
execute_bank-Retries d s = elim (execute_bank-cases d s) [
  | inl (e, refused) ↦ rw refused tt
  | inr (inl (w, old, found, same)) ↦ rw old old
  | inr (inr (done, enough, fresh)) ↦ rw done (
      execute_bank_known d (bank_done d s) (bank_result d s).withdrawal
        (find-created_updated s.withdrawals (bank_row d s) (links d s) fresh.new_id fresh.new_key)
        (eq_refl d.request_body_hash))
]

-- A bank request repeated with its key and body after it was accepted debits nothing more.
pub execute_bank_retry :
    (d : ExecuteBankWithdrawalData) (s : State) (r : ExecuteResult) (s' : State)
    → execute_bank_accept d s ≡ (ok r, s')
    → execute_bank_accept d s' ≡ (ok (existing_result r.withdrawal), s')
execute_bank_retry d s r s' h = rw h at (execute_bank-Retries d s)
