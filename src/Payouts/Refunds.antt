-- ===== src/Payouts/Refunds.antt =====
-- A payout that the provider reports as failed is paid back: `reverseAndFail` of
-- withdrawal-payout.service.ts and the same steps of withdrawal-settle.service.ts.
use Prim.Native.String.{◌++◌}
use prestohq_assessment.Prelude.{
  is_some, str_eq, str_eq-true, ◌==◌, ap, arith, true, false, none, String, ◌≡◌, ◌⊎◌, some, find,
}
use prestohq_assessment.Prelude.Int.{pos, ◌+ℤ◌}
use prestohq_assessment.Db.{State, WalletTransactionEntity, WithdrawalEntity, reversed}
use prestohq_assessment.Exec.{Result, ok, err}
use prestohq_assessment.Journal.{
  by_id, by_key, balance, new_row, with_row, insert, refusal, lock_wallet, wallet_by_id, is_debit,
}
use prestohq_assessment.Ledger.{
  reversal_data, check_original, post_reversal_credit, reversal_body, reversal_unless,
}
use prestohq_assessment.Ledger.Debits.{posted}
use prestohq_assessment.Ledger.Reversals.{IsOriginal, reversal_share}
use prestohq_assessment.WithdrawalStore.Rows.{
  UpdateWithdrawalProviderData, no_change, with_update, apply_update, withdrawal_by_id,
  update_withdrawal_known,
}
use prestohq_assessment.Payouts.{reversal_input, reverse_and_fail}

abbrev pub reversed_by : WalletTransactionEntity → UpdateWithdrawalProviderData
reversed_by t = record no_change {
  status = some reversed;
  reversal_transaction_id = some (some t.id);
}

-- What a refund may have done: nothing at all on an error; else the withdrawal is stored as REVERSED
-- with the identifier of a journal row, which was there under the debit's reversal key and then no
-- balance has changed, or else the withdrawal's wallet, and no other, has got its amount back.
abbrev pub RefundOutcome : WithdrawalEntity → String → State → Result (Unit {0}) × State → Type 0
RefundOutcome w debit_id s (err e, s') = s' ≡ s
RefundOutcome w debit_id s (ok _, s') =
    (t : WalletTransactionEntity) × (find (withdrawal_by_id w.id) s'.withdrawals
      ≡ some (apply_update (reversed_by t) w))
    × (((s'.journal ≡ s.journal) × (find (by_key ("reversal:" ++ debit_id)) s.journal ≡ some t))
        ⊎ ((x : String)
            → balance x s'.journal
              ≡ balance x s.journal +ℤ pos (reversal_share (reversal_input w debit_id) x)))

-- What a refund needs: the withdrawal stored, an unused reversal key, its debit in the journal, the wallet,
-- an amount, and a row that the table does not refuse.
pub record AcceptsRefund (w : WithdrawalEntity) (debit_id : String) (s : State) : Type 0 where
  pub stored : find (withdrawal_by_id w.id) s.withdrawals ≡ some w
  pub original : WalletTransactionEntity
  pub found : find (by_id debit_id) s.journal ≡ some original
  pub is_original : IsOriginal (reversal_input w debit_id) original
  pub new_key : find (by_key ("reversal:" ++ debit_id)) s.journal ≡ none
  pub wallet_there : is_some (find (wallet_by_id w.wallet_id) s.wallets) ≡ true
  pub positive : (w.amount == 0) ≡ false
  pub row_fits : refusal (reversal_data (reversal_input w debit_id)) s ≡ none

module _ (w : WithdrawalEntity) (debit_id : String) (s : State)
    (a : AcceptsRefund w debit_id s) where
  abbrev pub refund_row : WalletTransactionEntity
  refund_row = new_row (reversal_data (reversal_input w debit_id)) s

  original_passes : check_original (reversal_input w debit_id) (some a.original) s ≡ (ok tt, s)
  unfolding check_original
  original_passes =
      let debit : is_debit a.original.type ≡ true = ap is_debit a.is_original.0 in
      let same : str_eq a.original.wallet_id w.wallet_id ≡ true = str_eq-true a.is_original.1 in
      let amount : (a.original.amount == w.amount) ≡ true = ground (arith, a.is_original.2) in
      rw (debit, same, amount)

  row_inserted :
      insert (reversal_data (reversal_input w debit_id)) s ≡ (ok refund_row, with_row refund_row s)
  unfolding insert
  row_inserted = rw (a.row_fits, insert)

  reversal_passes :
      post_reversal_credit (reversal_input w debit_id) s
      ≡ (ok (posted (reversal_data (reversal_input w debit_id)) s), with_row refund_row s)
  unfolding post_reversal_credit reversal_body reversal_unless lock_wallet
  reversal_passes =
      rw (a.positive, a.new_key, a.found, original_passes, a.wallet_there, a.new_key, row_inserted)

  -- A refund whose needs are met goes through: `reverseAndFail` succeeds, the reversal row is appended
  -- to the journal, and the withdrawal is stored as REVERSED with that row's identifier.
  pub reverse_and_fail_accepted :
      reverse_and_fail w debit_id s
      ≡ (ok tt, with_update w.id (reversed_by refund_row) (with_row refund_row s))
  unfolding reverse_and_fail
  reverse_and_fail_accepted = rw (
    reversal_passes,
    update_withdrawal_known w.id (reversed_by refund_row) (with_row refund_row s) w a.stored,
  )
