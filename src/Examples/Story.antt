-- ===== src/Examples/Story.antt =====
-- A run of the service from an empty journal: Ada deposits 700 kobo, withdraws 300 to a bank, and the
-- provider refuses the transfer.
use Prim.Native.String.{◌++◌}
use prestohq_assessment.Prelude.{
  ℕ, zero, suc, ◌+◌, ◌≤◌, String, ◌≡◌, refl, none, some, [], ◌∷◌, find, sum_by,
}
use prestohq_assessment.Prelude.Int.{sub_ℕ}
use prestohq_assessment.Db.{
  State, WalletTransactionEntity, debit, bank_payout, tx_successful, text, other, Payload, to_bank,
  WithdrawalEntity, reversed,
}
use prestohq_assessment.Provider.{bank_failed}
use prestohq_assessment.System.{
  Operation, post_transfer, post_webhook, complete_job, post_withdrawal, payout_job, Reachable,
  start, after, perform,
}
use prestohq_assessment.Transfers.{
  create, new_flutterwave_tx_ref, create_new, handle_flutterwave_webhook, provider_event_id,
}
use prestohq_assessment.TransferComplete.{
  extract_tx_ref, tx_ref_of, credit_once, complete_verified, complete_from_webhook, process,
}
use prestohq_assessment.TransferStore.{create_transfer, update_transfer}
use prestohq_assessment.WebhookStore.{create_event, mark_event}
use prestohq_assessment.Auth.Credential.{verify_pin_or_throw}
use prestohq_assessment.Withdrawals.{create_bank}
use prestohq_assessment.WithdrawalStore.{bank_writes, bank_unless, bank_body, execute_bank_accept}
use prestohq_assessment.WithdrawalStore.Rows.{
  create_withdrawal, update_withdrawal, withdrawal_by_id,
}
use prestohq_assessment.Ledger.{
  check_original, reversal_unless, reversal_body, post_reversal_credit, pending_unless,
  pending_body, post_credit_pending, complete_in, complete_body, complete_credit_successful,
}
use prestohq_assessment.Journal.{credits, debits, lock_wallet, insert, update_status}
use prestohq_assessment.Payouts.{
  reverse_and_fail, after_initiate, process_payout, process_payout_job,
}
use prestohq_assessment.Prelude.Text.{trim, slice_to, remove_dashes, to_upper_case}
use prestohq_assessment.Withdrawals
use prestohq_assessment.Withdrawals.{CreateWithdrawalDto}
use prestohq_assessment.Journal.{by_id}
use prestohq_assessment.Journal.Books.{total, deposits, payouts, refunds, repaid}
use prestohq_assessment.WithdrawalStore.Trail.{Evolves}
use prestohq_assessment.System.Races.{Races, perform-Races, Reachable-Races, interleaved_refunds}
use prestohq_assessment.System.Finished.{finished_withdrawals_stay}
use prestohq_assessment.System.Reach.{never_overdrawn}
use prestohq_assessment.System.Books.{money_accounted, never_refunded_twice}
use prestohq_assessment.System.Reconciliation.{withdrawals-IsSettled, IsSettled}
use prestohq_assessment.Examples.Data.{
  ada, ada_wallet, bob_wallet, empty_state, provider, environment, ada_actor,
}

abbrev numbered : ℕ → String
numbered zero = "n"
numbered (suc n) = "i" ++ numbered n

abbrev opened : State
opened = record empty_state {
  users = ada ∷ [];
  wallets = ada_wallet ∷ bob_wallet ∷ [];
  cuid = numbered;
  random_uuid = numbered;
}

abbrev paid : Payload
paid = record {
  event = text "charge.completed";
  id = other;
  tx_ref = other;
  tx_ref_camel = other;
  data_object = some (record { id = text "77"; tx_ref = text "fund_u1_in"; tx_ref_camel = other });
}

abbrev bank_dto : CreateWithdrawalDto
bank_dto = record {
  destination_type = to_bank;
  recipient_username = none;
  bank_code = some "044";
  account_number = some "0690000999";
  account_name = some "Ada Obi";
  amount = 300;
  currency = none;
  pin = "1234";
}

abbrev asks : Operation
asks =
    post_transfer (provider bank_failed) ada_actor
      (record { amount = 700; currency = none; pin = "1234" }) "k1"

abbrev notice : Operation
notice = post_webhook (provider bank_failed) (some "secret-hash") paid

abbrev completes : Operation
completes =
    complete_job (provider bank_failed)
      (record { name = "complete"; subject = "iiin"; job_id = "j1" })

abbrev withdraws : Operation
withdraws = post_withdrawal ada_actor bank_dto "k2"

abbrev pays_out : Operation
pays_out =
    payout_job (provider bank_failed) (record { name = "payout"; subject = "iiiin"; job_id = "j2" })

abbrev funded : State
funded =
    perform environment completes (perform environment notice (perform environment asks opened))

abbrev withdrawn : State
withdrawn = perform environment withdraws funded

abbrev refused : State
refused = perform environment pays_out withdrawn

till_withdrawn : Reachable environment opened withdrawn
till_withdrawn = after (after (after (after start asks) notice) completes) withdraws

story : Reachable environment opened refused
story = after till_withdrawn pays_out

last_step : Reachable environment withdrawn refused
last_step = after start pays_out

abbrev debit_row : WalletTransactionEntity
debit_row = record {
  id = "iiiiin";
  wallet_id = "w1";
  type = debit;
  purpose = bank_payout;
  status = tx_successful;
  amount = 300;
  idempotency_key = "bank-debit:u1:k2";
  reference = some "wd_u1_iin";
  counterpart_wallet_id = none;
  transfer_id = none;
  withdrawal_id = some "iiiin";
  reverses_transaction_id = none;
  created_at = 1000;
}

abbrev refunded_withdrawal : WithdrawalEntity
refunded_withdrawal = record {
  id = "iiiin";
  user_id = "u1";
  wallet_id = "w1";
  amount = 300;
  currency = "NGN";
  destination_type = to_bank;
  destination_wallet_id = none;
  bank_code = some "044";
  account_number = some "0690000999";
  account_name = some "Ada Obi";
  status = reversed;
  provider_reference = some "wd_u1_iin";
  provider_transfer_id = none;
  debit_transaction_id = some "iiiiin";
  credit_transaction_id = none;
  reversal_transaction_id = some "iiiiiin";
  idempotency_key = "k2";
  request_body_hash = "hash";
  created_at = 1000;
}

-- The payout of 300 is in the books, and its withdrawal ends as REVERSED.
ends :
    (find (by_id "iiiiin") refused.journal ≡ some debit_row)
    × (find (withdrawal_by_id "iiiin") refused.withdrawals ≡ some refunded_withdrawal)
unfolding perform Withdrawals.create create new_flutterwave_tx_ref create_new
    handle_flutterwave_webhook provider_event_id extract_tx_ref tx_ref_of credit_once
    complete_verified complete_from_webhook process create_transfer update_transfer create_event
    mark_event verify_pin_or_throw create_bank bank_writes bank_unless bank_body execute_bank_accept
    create_withdrawal update_withdrawal check_original reversal_unless reversal_body
    post_reversal_credit pending_unless pending_body post_credit_pending complete_in complete_body
    complete_credit_successful credits debits lock_wallet insert update_status reverse_and_fail
    after_initiate process_payout process_payout_job trim slice_to remove_dashes to_upper_case
ends = (refl, refl)

withdrawals-IsSettled_example : IsSettled refused refunded_withdrawal
withdrawals-IsSettled_example =
    withdrawals-IsSettled environment opened refused "iiiin" refunded_withdrawal refl refl story
      ends.1

never_refunded_twice_example : sum_by (repaid "iiiiin") refused.journal ≤ 300
never_refunded_twice_example =
    never_refunded_twice environment opened refused "iiiiin" debit_row refl story ends.0

money_accounted_example :
    total refused.journal
    ≡ sub_ℕ (deposits refused.journal + refunds refused.journal) (payouts refused.journal)
money_accounted_example = money_accounted environment opened refused refl story

finished_withdrawals_stay_example : Evolves withdrawn.withdrawals refused.withdrawals
finished_withdrawals_stay_example =
    finished_withdrawals_stay environment withdrawn refused last_step

never_overdrawn_example : debits "w1" refused.journal ≤ credits "w1" refused.journal
never_overdrawn_example = never_overdrawn environment opened refused "w1" refl story

perform-Races_example : Races withdrawn.journal refused.journal
perform-Races_example = perform-Races environment pays_out withdrawn

interleaved_refunds_example :
    (sum_by (repaid "iiiiin") refused.journal ≤ 300)
    × (total refused.journal
        ≡ sub_ℕ (deposits refused.journal + refunds refused.journal) (payouts refused.journal))
interleaved_refunds_example =
    interleaved_refunds "iiiiin" refused.journal debit_row
      (Reachable-Races environment opened refused story) ends.0
