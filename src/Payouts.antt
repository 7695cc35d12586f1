-- ===== src/Payouts.antt =====
-- The workers of bank withdrawals: withdrawal-payout.service.ts and withdrawal-settle.service.ts of
-- src/modules/withdrawals/services, and the two processors that call them.
pub mod Soundness
pub mod Refunds
pub mod Effects
use Prim.Native.String.{◌++◌}
use prestohq_assessment.Prelude.{
  ℕ, String, Bool, true, false, Option, none, some, or_else, str_eq, append_row, if◌then◌else◌,
}
use prestohq_assessment.Prelude.Text.{truthy}
use prestohq_assessment.Errors.{Error, still_pending}
use prestohq_assessment.Db.{
  Job, WithdrawalEntity, WithdrawalStatus, pending, processing, successful, failed, reversed,
  WithdrawalDestinationType, to_wallet, to_bank,
}
use prestohq_assessment.Exec.{Action, pure, raise, lift, modify, when, ◌>>=◌, ◌>>◌}
use prestohq_assessment.Ledger.{PostReversalInput, post_reversal_credit}
use prestohq_assessment.WithdrawalStore.Rows.{no_change, find_withdrawal, update_withdrawal}
use prestohq_assessment.Provider.{
  FlutterwaveProvider, InitiateBankTransferParams, BankTransferResult, BankStatus, bank_successful,
  bank_pending, bank_failed, bank_unknown,
}

-- A finished withdrawal, which no worker touches.
abbrev pub is_terminal : WithdrawalStatus → Bool
is_terminal pending = false
is_terminal processing = false
is_terminal successful = true
is_terminal failed = true
is_terminal reversed = true

abbrev pub goes_to_bank : WithdrawalDestinationType → Bool
goes_to_bank to_wallet = false
goes_to_bank to_bank = true

abbrev pub reversal_input : WithdrawalEntity → String → PostReversalInput
reversal_input w debit_id = record {
  wallet_id = w.wallet_id;
  amount = w.amount;
  original_debit_id = debit_id;
  idempotency_key = "reversal:" ++ debit_id;
  withdrawal_id = some w.id;
  reference = some ("rev_" ++ w.id);
}

-- The refund of a failed payout: `reverseAndFail`, and the same steps in `processSettle`
unfoldable pub reverse_and_fail : WithdrawalEntity → String → Action (Unit {0})
reverse_and_fail w debit_id = do
  reversal ← post_reversal_credit (reversal_input w debit_id)
  update_withdrawal w.id (record no_change {
    status = some reversed;
    reversal_transaction_id = some (some reversal.written.id);
  })
  pure tt

abbrev pub enqueue_settle : String → Action (Unit {0})
enqueue_settle id = modify (λ s. record s {
  settle_queue =
      append_row s.settle_queue
        (record { name = "settle"; subject = id; job_id = "withdrawal-settle-" ++ id });
})

-- What `processPayout` does with the answer of `initiateBankTransfer`
unfoldable pub after_initiate :
    BankStatus → WithdrawalEntity → BankTransferResult → Action (Unit {0})
after_initiate bank_failed w result = reverse_and_fail w (or_else w.debit_transaction_id "")
after_initiate bank_successful w result = do
  update_withdrawal w.id (record no_change {
    provider_transfer_id = some result.transfer_id;
    status = some successful;
  })
  pure tt
after_initiate bank_pending w result = do
  update_withdrawal w.id (record no_change {
    provider_transfer_id = some result.transfer_id;
    status = some processing;
  })
  enqueue_settle w.id
after_initiate bank_unknown w result = do
  update_withdrawal w.id (record no_change {
    provider_transfer_id = some result.transfer_id;
    status = some processing;
  })
  enqueue_settle w.id

abbrev pub bank_params : WithdrawalEntity → InitiateBankTransferParams
bank_params w = record {
  reference = or_else w.provider_reference "";
  amount_kobo = w.amount;
  currency = w.currency;
  bank_code = or_else w.bank_code "";
  account_number = or_else w.account_number "";
  narration = "Wallet withdrawal " ++ w.id;
}

abbrev pub pay_out : FlutterwaveProvider → WithdrawalEntity → Action (Unit {0})
pay_out flutterwave w = do
  result ← lift (flutterwave.initiate_bank_transfer (bank_params w))
  after_initiate result.status w result

abbrev pub payout_found : FlutterwaveProvider → Option WithdrawalEntity → Action (Unit {0})
payout_found flutterwave none = pure tt
payout_found flutterwave (some w) =
    if is_terminal w.status
    then pure tt
    else if goes_to_bank w.destination_type
    then pay_out flutterwave w
    else pure tt

-- `processPayout`
unfoldable pub process_payout : FlutterwaveProvider → String → Action (Unit {0})
process_payout flutterwave id = do found ← find_withdrawal id; payout_found flutterwave found

abbrev pub settle_failed : WithdrawalEntity → Option String → Action (Unit {0})
settle_failed w none = pure tt
settle_failed w (some debit_id) = if truthy debit_id then reverse_and_fail w debit_id else pure tt

-- What `processSettle` does with the provider's status; a pending transfer is an error, so that the
-- queue tries again.
unfoldable pub after_status : BankStatus → WithdrawalEntity → Action (Unit {0})
after_status bank_successful w = do
  update_withdrawal w.id (record no_change { status = some successful })
  pure tt
after_status bank_failed w = settle_failed w w.debit_transaction_id
after_status bank_pending w = raise (still_pending w.id)
after_status bank_unknown w = raise (still_pending w.id)

abbrev pub settle_transfer :
    FlutterwaveProvider → WithdrawalEntity → Option String → Action (Unit {0})
settle_transfer flutterwave w none = pure tt
settle_transfer flutterwave w (some transfer_id) =
    if truthy transfer_id
    then (do
      answer ← lift (flutterwave.get_bank_transfer_status transfer_id)
      after_status answer.status w)
    else pure tt

abbrev pub settle_found : FlutterwaveProvider → Option WithdrawalEntity → Action (Unit {0})
settle_found flutterwave none = pure tt
settle_found flutterwave (some w) =
    if is_terminal w.status then pure tt else settle_transfer flutterwave w w.provider_transfer_id

-- `processSettle`
unfoldable pub process_settle : FlutterwaveProvider → String → Action (Unit {0})
process_settle flutterwave id = do found ← find_withdrawal id; settle_found flutterwave found

-- `WithdrawalPayoutProcessor.process`
unfoldable pub process_payout_job : FlutterwaveProvider → Job → Action (Unit {0})
process_payout_job flutterwave job =
    when (str_eq job.name "payout") (process_payout flutterwave job.subject)

-- `WithdrawalSettleProcessor.process`
unfoldable pub process_settle_job : FlutterwaveProvider → Job → Action (Unit {0})
process_settle_job flutterwave job =
    when (str_eq job.name "settle") (process_settle flutterwave job.subject)
