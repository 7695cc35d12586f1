-- ===== src/Examples/Requests.antt =====
-- The theorems on deposits and on requests that go through, at concrete requests.
use prestohq_assessment.Prelude.Unique.{Unique}
use prestohq_assessment.Prelude.{◌≡◌, eq_iff, true, false, refl, none, some, [], ◌∷◌, arith}
use prestohq_assessment.Db.{
  State, Payload, text, other, number, TransferEntity, transfer_pending, WebhookEventEntity,
  received,
}
use prestohq_assessment.Journal.{credits, debits, lock_wallet}
use prestohq_assessment.Ledger.Completion.{Names}
use prestohq_assessment.WithdrawalStore.Acceptance.{
  AcceptsP2p, PaysP2p, AcceptsBank, ChargesBank, execute_p2p_accepted, execute_bank_accepted,
}
use prestohq_assessment.Payouts.Refunds.{AcceptsRefund}
use prestohq_assessment.Provider.{VerifyPaymentResult, payment_successful, bank_pending}
use prestohq_assessment.TransferComplete.{tx_ref_of, complete_from_webhook}
use prestohq_assessment.System.Credited.{AcceptsDeposit, Arrives, paid_deposit_arrives}
use prestohq_assessment.System.Crediting.{CreditedOnce}
use prestohq_assessment.System.Deposits.{complete_from_webhook-CreditedOnce}
use prestohq_assessment.Examples.Data.{
  bank_withdrawal, payout, expected, state, p2p_request, bank_request, complete_input, provider,
}

abbrev deposit : TransferEntity
deposit = record {
  id = "f2";
  user_id = "u1";
  wallet_id = "w1";
  amount = 700;
  currency = "NGN";
  status = transfer_pending;
  flutterwave_tx_ref = "fund_u1_b";
  flutterwave_id = none;
  checkout_url = some "https://pay/fund_u1_b";
  idempotency_key = "b";
  request_body_hash = "hash-b";
  created_at = 0;
}

abbrev payload : Payload
payload = record {
  event = text "charge.completed";
  id = other;
  tx_ref = other;
  tx_ref_camel = other;
  data_object = some (record { id = number "77"; tx_ref = text "fund_u1_b"; tx_ref_camel = other });
}

abbrev event : WebhookEventEntity
event = record {
  id = "e1";
  event_type = "charge.completed";
  provider_event_id = "flw-77";
  reference = some "fund_u1_b";
  payload = payload;
  status = received;
  processed_at = none;
  created_at = 0;
}

abbrev paid_state : State
paid_state = record state { transfers = deposit ∷ []; webhook_events = event ∷ [] }

distinct : Unique (λ r. r.id) paid_state.journal
distinct = (refl, (refl, (refl, tt)))

complete_from_webhook-CreditedOnce_example :
    CreditedOnce
      (provider bank_pending)
      paid_state
      "e1"
      (complete_from_webhook (provider bank_pending) "e1" paid_state).1.journal
complete_from_webhook-CreditedOnce_example =
    complete_from_webhook-CreditedOnce (provider bank_pending) paid_state "e1" distinct

named : Names complete_input state expected
unfolding lock_wallet
named = record { found = refl; of_wallet = refl; lockable = refl }

p2p-AcceptsP2p : AcceptsP2p p2p_request state
unfolding debits credits
p2p-AcceptsP2p = record {
  new_key = refl;
  new_debit_key = refl;
  new_credit_key = refl;
  sender_there = refl;
  destination_there = refl;
  enough = omega arith;
  small = omega arith;
  new_id = refl;
  new_debit_id = refl;
  new_credit_id = refl;
  other_id = λ e. let same : false ≡ true = (eq_iff "c2" "c3").1 e in absurd cc;
}

execute_p2p_accepted_example : PaysP2p p2p_request state
execute_p2p_accepted_example = execute_p2p_accepted p2p_request state p2p-AcceptsP2p

bank-AcceptsBank : AcceptsBank bank_request state
unfolding debits credits
bank-AcceptsBank = record {
  new_key = refl;
  new_reference = refl;
  new_debit_key = refl;
  wallet_there = refl;
  enough = omega arith;
  small = omega arith;
  new_id = refl;
  new_debit_id = refl;
}

execute_bank_accepted_example : ChargesBank bank_request state
execute_bank_accepted_example = execute_bank_accepted bank_request state bank-AcceptsBank

pub refund-AcceptsRefund : AcceptsRefund bank_withdrawal "t3" state
refund-AcceptsRefund = record {
  stored = refl;
  original = payout;
  found = refl;
  is_original = (refl, refl, refl);
  new_key = refl;
  wallet_there = refl;
  positive = refl;
  row_fits = refl;
}

abbrev answered : VerifyPaymentResult
answered = record {
  status = payment_successful;
  amount_kobo = 700;
  currency = "NGN";
  tx_ref = "fund_u1_b";
  provider_transaction_id = none;
}

paid_deposit :
    AcceptsDeposit (provider bank_pending) paid_state event deposit answered expected "fund_u1_b"
unfolding lock_wallet tx_ref_of
paid_deposit = record {
  stored_event = refl;
  unprocessed = refl;
  named = refl;
  stored_transfer = refl;
  by_own_id = refl;
  pending = refl;
  verified = refl;
  paid = refl;
  right_amount = refl;
  uncredited = refl;
  awaiting = refl;
  credits_wallet = record { found = refl; of_wallet = refl; lockable = refl };
  is_awaiting = refl;
  a_credit = refl;
}

paid_deposit_arrives_example :
    Arrives (provider bank_pending) paid_state event deposit answered expected "fund_u1_b"
paid_deposit_arrives_example =
    paid_deposit_arrives (provider bank_pending) paid_state event deposit answered expected
      "fund_u1_b" paid_deposit
