-- ===== src/Payouts/Effects.antt =====
-- All that a run of a worker can do to the journal and to the withdrawals.
use Prim.Native.String.{◌++◌}
use mathlib.Core.Path.{subst}
use prestohq_assessment.Prelude.{
  String, ◌≡◌, refl, sym, ap, ◌⊎◌, inl, inr, false, Option, none, some, or_else, eq_iff, find,
  find_fits, update, append_row, Bool-cases, Option-cases,
}
use prestohq_assessment.Prelude.Text.{truthy}
use prestohq_assessment.Db.{
  State, WalletTransactionEntity, WithdrawalEntity, WithdrawalStatus, processing, successful,
}
use prestohq_assessment.Exec.{Result, ok, err, continue}
use prestohq_assessment.Journal.{by_id, by_key, new_row, with_row}
use prestohq_assessment.Ledger.{reversal_data}
use prestohq_assessment.Ledger.Reversals.{IsOriginal, post_reversal-cases}
use prestohq_assessment.WithdrawalStore.Rows.{
  UpdateWithdrawalProviderData, no_change, apply_update, withdrawal_by_id, update_withdrawal_known,
}
use prestohq_assessment.Provider.{
  FlutterwaveProvider, BankTransferResult, BankStatus, bank_successful, bank_pending, bank_failed,
  bank_unknown,
}
use prestohq_assessment.Payouts.{
  is_terminal, goes_to_bank, reversal_input, reverse_and_fail, after_initiate, bank_params,
  process_payout, settle_failed, after_status, settle_transfer, process_settle,
}
use prestohq_assessment.Payouts.Refunds.{reversed_by}

-- An update that marks progress: no column of the journal's rows is touched, and the status is
-- PROCESSING or SUCCESSFUL.
abbrev pub IsProgress : UpdateWithdrawalProviderData → Type 0
IsProgress d =
    (d.debit_transaction_id ≡ none) × ((d.status ≡ some processing) ⊎ (d.status ≡ some successful))

abbrev pub Unchanged : State → State → Type 0
Unchanged s s' = (s'.journal ≡ s.journal) × (s'.withdrawals ≡ s.withdrawals)

abbrev pub Updated : UpdateWithdrawalProviderData → WithdrawalEntity → State → State → Type 0
Updated d w s s' = s'.withdrawals ≡ update (withdrawal_by_id w.id) (apply_update d) s.withdrawals

abbrev pub refund_row_of : WithdrawalEntity → String → State → WalletTransactionEntity
refund_row_of w debit_id s = new_row (reversal_data (reversal_input w debit_id)) s

-- The refund was in the journal, or it is appended and its debit is there.
abbrev pub Refund : WithdrawalEntity → String → WalletTransactionEntity → State → State → Type 0
Refund w debit_id t s s' =
    ((s'.journal ≡ s.journal) × (find (by_key ("reversal:" ++ debit_id)) s.journal ≡ some t))
    ⊎ ((s'.journal ≡ append_row s.journal (refund_row_of w debit_id s))
        × (t ≡ refund_row_of w debit_id s)
        × ((o : WalletTransactionEntity) × (find (by_id debit_id) s.journal ≡ some o)
            × IsOriginal (reversal_input w debit_id) o))

-- What a run did: nothing to these tables; or it found an unfinished withdrawal, and marked progress or
-- refunded its debit and marked it as REVERSED.
pub data Effect (s : State) (s' : State) : Type 0 where
  idle : Unchanged s s' → Effect s s'
  progressed :
      (w : WithdrawalEntity) (d : UpdateWithdrawalProviderData)
      → find (withdrawal_by_id w.id) s.withdrawals ≡ some w
      → is_terminal w.status ≡ false
      → IsProgress d
      → s'.journal ≡ s.journal
      → Updated d w s s'
      → Effect s s'
  refunded :
      (w : WithdrawalEntity) (t : WalletTransactionEntity)
      → find (withdrawal_by_id w.id) s.withdrawals ≡ some w
      → is_terminal w.status ≡ false
      → Refund w (or_else w.debit_transaction_id "") t s s'
      → Updated (reversed_by t) w s s'
      → Effect s s'

module _ (w : WithdrawalEntity) (s : State)
    (stored : find (withdrawal_by_id w.id) s.withdrawals ≡ some w)
    (running : is_terminal w.status ≡ false) where
  abbrev debit_of : String
  debit_of = or_else w.debit_transaction_id ""

  refund-Effect : Effect s (reverse_and_fail w debit_of s).1
  unfolding reverse_and_fail
  refund-Effect = elim (post_reversal-cases (reversal_input w debit_of) s) [
    | inl (e, refused) ↦ rw refused (idle (refl, refl))
    | inr (inl (t, old, found)) ↦
        rw (old, update_withdrawal_known w.id (reversed_by t) s w stored)
          (refunded w t stored running (inl (refl, found)) refl)
    | inr (inr (done, original, _, _)) ↦
        let row : WalletTransactionEntity = refund_row_of w debit_of s in
        rw (done, update_withdrawal_known w.id (reversed_by row) (with_row row s) w stored)
          (refunded w row stored running (inr (refl, refl, original)) refl)
  ]

  abbrev progress : WithdrawalStatus → Option (Option String) → UpdateWithdrawalProviderData
  progress status transfer_id = record no_change {
    provider_transfer_id = transfer_id;
    status = some status;
  }

  after_initiate-Effect :
      (b : BankStatus) (r : BankTransferResult) → Effect s (after_initiate b w r s).1
  unfolding after_initiate
  after_initiate-Effect bank_failed r = refund-Effect
  after_initiate-Effect bank_successful r =
      rw (update_withdrawal_known w.id (progress successful (some r.transfer_id)) s w stored) (
        progressed w (progress successful (some r.transfer_id)) stored running (refl, inr refl) refl
          refl)
  after_initiate-Effect bank_pending r =
      rw (update_withdrawal_known w.id (progress processing (some r.transfer_id)) s w stored) (
        progressed w (progress processing (some r.transfer_id)) stored running (refl, inl refl) refl
          refl)
  after_initiate-Effect bank_unknown r =
      rw (update_withdrawal_known w.id (progress processing (some r.transfer_id)) s w stored) (
        progressed w (progress processing (some r.transfer_id)) stored running (refl, inl refl) refl
          refl)

  initiated-Effect :
      (r : Result BankTransferResult)
      → Effect s (continue (λ result. after_initiate result.status w result) (r, s)).1
  initiated-Effect (ok result) = after_initiate-Effect result.status result
  initiated-Effect (err e) = idle (refl, refl)

  settle_failed-Effect :
      (o : Option String) → w.debit_transaction_id ≡ o → Effect s (settle_failed w o s).1
  settle_failed-Effect none e = idle (refl, refl)
  settle_failed-Effect (some debit_id) e = elim (Bool-cases (truthy debit_id)) [
    | inl named ↦
        let same : debit_of ≡ debit_id = ap (λ o. or_else o "") e in
        rw named (subst (λ id. Effect s (reverse_and_fail w id s).1) same refund-Effect)
    | inr empty ↦ rw empty (idle (refl, refl))
  ]

  after_status-Effect : (b : BankStatus) → Effect s (after_status b w s).1
  unfolding after_status
  after_status-Effect bank_successful =
      rw (update_withdrawal_known w.id (progress successful none) s w stored)
        (progressed w (progress successful none) stored running (refl, inr refl) refl refl)
  after_status-Effect bank_failed = settle_failed-Effect w.debit_transaction_id refl
  after_status-Effect bank_pending = idle (refl, refl)
  after_status-Effect bank_unknown = idle (refl, refl)

  answered-Effect :
      (r : Result BankTransferResult)
      → Effect s (continue (λ answer. after_status answer.status w) (r, s)).1
  answered-Effect (ok answer) = after_status-Effect answer.status
  answered-Effect (err e) = idle (refl, refl)

  settle_transfer-Effect :
      (flutterwave : FlutterwaveProvider) (o : Option String)
      → Effect s (settle_transfer flutterwave w o s).1
  settle_transfer-Effect flutterwave none = idle (refl, refl)
  settle_transfer-Effect flutterwave (some id) = elim (Bool-cases (truthy id)) [
    | inl named ↦ rw named (answered-Effect (flutterwave.get_bank_transfer_status id))
    | inr empty ↦ rw empty (idle (refl, refl))
  ]

module _ (flutterwave : FlutterwaveProvider) (id : String) (s : State) where
  own_id :
      (w : WithdrawalEntity)
      → find (withdrawal_by_id id) s.withdrawals ≡ some w
      → find (withdrawal_by_id w.id) s.withdrawals ≡ some w
  own_id w found =
      let same : w.id ≡ id =
        (eq_iff w.id id).0 (find_fits (withdrawal_by_id id) s.withdrawals w found) in
      subst (λ k. find (withdrawal_by_id k) s.withdrawals ≡ some w) (sym same) found

  -- What `processPayout` does to the tables of money, whatever the provider answers.
  pub process_payout-Effect : Effect s (process_payout flutterwave id s).1
  unfolding process_payout
  process_payout-Effect = elim (Option-cases (find (withdrawal_by_id id) s.withdrawals)) [
    | inl absent ↦ rw absent (idle (refl, refl))
    | inr (w, found) ↦ elim (Bool-cases (is_terminal w.status)) [
      | inl finished ↦ rw (found, finished) (idle (refl, refl))
      | inr running ↦ elim (Bool-cases (goes_to_bank w.destination_type)) [
        | inl bank ↦
            rw (found, running, bank)
              (initiated-Effect w s (own_id w found) running
                (flutterwave.initiate_bank_transfer (bank_params w)))
        | inr wallet ↦ rw (found, running, wallet) (idle (refl, refl))
      ]
    ]
  ]

  -- What `processSettle` does to them.
  pub process_settle-Effect : Effect s (process_settle flutterwave id s).1
  unfolding process_settle
  process_settle-Effect = elim (Option-cases (find (withdrawal_by_id id) s.withdrawals)) [
    | inl absent ↦ rw absent (idle (refl, refl))
    | inr (w, found) ↦ elim (Bool-cases (is_terminal w.status)) [
      | inl finished ↦ rw (found, finished) (idle (refl, refl))
      | inr running ↦
          rw (found, running)
            (settle_transfer-Effect w s (own_id w found) running flutterwave w.provider_transfer_id)
    ]
  ]
