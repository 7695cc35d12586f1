-- ===== src/Examples/Data.antt =====
-- A small state of the service: Ada has 5000 kobo, of which 300 went to a bank, and 700 more to come;
-- Bob has nothing yet.
use Prim.Native.String.{◌++◌}
use prestohq_assessment.Prelude.{ℕ, String, false, none, some, [], ◌∷◌, ◌==◌, if◌then◌else◌, str_eq}
use prestohq_assessment.Db.{
  State, UserEntity, WalletEntity, active, WalletTransactionEntity, credit, debit,
  flutterwave_funding, bank_payout, p2p, tx_pending, tx_successful, WithdrawalEntity, to_bank,
  processing, successful,
}
use prestohq_assessment.Exec.{ok}
use prestohq_assessment.Ledger.{
  PostCreditPendingInput, CompleteCreditInput, PostDebitInput, PostReversalInput,
}
use prestohq_assessment.WithdrawalStore.{ExecuteP2pWithdrawalData, ExecuteBankWithdrawalData}
use prestohq_assessment.Provider.{
  FlutterwaveProvider, BankTransferResult, BankStatus, payment_successful,
}
use prestohq_assessment.Environment.{Environment, Actor}
use prestohq_assessment.Auth.{RegisterDto}

abbrev pub ada : UserEntity
ada = record {
  id = "u1";
  email = "ada@example.com";
  username = "ada";
  first_name = "Ada";
  last_name = "Obi";
  password_hash = "secret!";
  password_try_count = 0;
  password_locked_until = none;
  pin_hash = some "1234!";
  pin_try_count = 0;
  pin_locked_until = none;
  created_at = 0;
}

-- Ada, after three wrong PINs
abbrev pub locked_ada : UserEntity
locked_ada = record ada { pin_try_count = 3; pin_locked_until = some 301000 }

abbrev pub ada_wallet : WalletEntity
ada_wallet = record { id = "w1"; user_id = "u1"; currency = "NGN"; status = active; created_at = 0 }

abbrev pub bob_wallet : WalletEntity
bob_wallet = record { id = "w2"; user_id = "u2"; currency = "NGN"; status = active; created_at = 0 }

abbrev pub funding : WalletTransactionEntity
funding = record {
  id = "t1";
  wallet_id = "w1";
  type = credit;
  purpose = flutterwave_funding;
  status = tx_successful;
  amount = 5000;
  idempotency_key = "funding:u1:a";
  reference = some "fund_u1_a";
  counterpart_wallet_id = none;
  transfer_id = some "f1";
  withdrawal_id = none;
  reverses_transaction_id = none;
  created_at = 0;
}

abbrev pub expected : WalletTransactionEntity
expected = record funding {
  id = "t2";
  status = tx_pending;
  amount = 700;
  idempotency_key = "funding:u1:b";
  reference = some "fund_u1_b";
  transfer_id = some "f2";
}

abbrev pub payout : WalletTransactionEntity
payout = record funding {
  id = "t3";
  type = debit;
  purpose = bank_payout;
  amount = 300;
  idempotency_key = "bank-debit:u1:c";
  reference = some "wd_u1_c";
  transfer_id = none;
  withdrawal_id = some "d1";
}

abbrev pub bank_withdrawal : WithdrawalEntity
bank_withdrawal = record {
  id = "d1";
  user_id = "u1";
  wallet_id = "w1";
  amount = 300;
  currency = "NGN";
  destination_type = to_bank;
  destination_wallet_id = none;
  bank_code = some "044";
  account_number = some "0690000999";
  account_name = some "Ada Obi";
  status = processing;
  provider_reference = some "wd_u1_c";
  provider_transfer_id = some "x1";
  debit_transaction_id = some "t3";
  credit_transaction_id = none;
  reversal_transaction_id = none;
  idempotency_key = "c";
  request_body_hash = "hash-c";
  created_at = 0;
}

abbrev done_withdrawal : WithdrawalEntity
done_withdrawal = record bank_withdrawal {
  id = "d2";
  status = successful;
  provider_reference = none;
  idempotency_key = "d";
}

abbrev pub fresh_id : ℕ → String
fresh_id n =
    if n == 1
    then "c1"
    else if n == 2
    then "c2"
    else if n == 3
    then "c3"
    else if n == 4
    then "c4"
    else "c5"

abbrev pub empty_state : State
empty_state = record {
  users = [];
  wallets = [];
  journal = [];
  transfers = [];
  withdrawals = [];
  webhook_events = [];
  transfer_queue = [];
  payout_queue = [];
  settle_queue = [];
  now = 1000;
  cuid = fresh_id;
  next_id = 1;
  random_uuid = fresh_id;
  next_uuid = 1;
}

abbrev pub state : State
state = record empty_state {
  users = ada ∷ [];
  wallets = ada_wallet ∷ bob_wallet ∷ [];
  journal = funding ∷ expected ∷ payout ∷ [];
  withdrawals = bank_withdrawal ∷ done_withdrawal ∷ [];
}

abbrev pub locked_state : State
locked_state = record state { users = locked_ada ∷ [] }

abbrev pub debit_input : PostDebitInput
debit_input = record {
  wallet_id = "w1";
  amount = 4000;
  purpose = p2p;
  idempotency_key = "k1";
  reference = none;
  counterpart_wallet_id = none;
  withdrawal_id = none;
}

abbrev pub reversal_input : PostReversalInput
reversal_input = record {
  wallet_id = "w1";
  amount = 300;
  original_debit_id = "t3";
  idempotency_key = "reversal:t3";
  withdrawal_id = some "d1";
  reference = some "rev_d1";
}

abbrev pub pending_input : PostCreditPendingInput
pending_input = record {
  wallet_id = "w2";
  amount = 250;
  idempotency_key = "funding:u2:a";
  reference = none;
  transfer_id = none;
}

abbrev pub complete_input : CompleteCreditInput
complete_input = record { transaction_id = "t2"; expected_wallet_id = "w1" }

abbrev pub p2p_request : ExecuteP2pWithdrawalData
p2p_request = record {
  user_id = "u1";
  sender_wallet_id = "w1";
  destination_wallet_id = "w2";
  amount = 4000;
  currency = "NGN";
  idempotency_key = "e";
  request_body_hash = "hash-e";
}

-- The key of the bank withdrawal, with another body
abbrev pub bank_request : ExecuteBankWithdrawalData
bank_request = record {
  user_id = "u1";
  wallet_id = "w1";
  amount = 4000;
  currency = "NGN";
  bank_code = "044";
  account_number = "0690000001";
  account_name = "Ada Obi";
  provider_reference = "wd_u1_f";
  idempotency_key = "f";
  request_body_hash = "hash-f";
}

-- A provider whose transfers all have one status
abbrev pub answer : BankStatus → BankTransferResult
answer b = record { status = b; transfer_id = some "x1"; message = none }

abbrev pub provider : BankStatus → FlutterwaveProvider
provider b = record {
  initiate_payment =
      λ p. ok (record { checkout_url = "https://pay/" ++ p.tx_ref; provider_payment_id = none });
  verify_by_tx_ref = λ r. ok (record {
    status = payment_successful;
    amount_kobo = 700;
    currency = "NGN";
    tx_ref = r;
    provider_transaction_id = none;
  });
  verify_webhook_signature = λ o. elim o [ none ↦ false | some h ↦ str_eq h "secret-hash" ];
  initiate_bank_transfer = λ p. ok (answer b);
  get_bank_transfer_status = λ i. ok (answer b);
}

abbrev pub environment : Environment
environment = record {
  hash_request_body = λ b. "hash";
  bcrypt_compare = λ plain hash. str_eq (plain ++ "!") hash;
  bcrypt_hash = λ plain. plain ++ "!";
  sign_access_token = λ u. u.id;
  redirect_url = none;
}

abbrev pub ada_actor : Actor
ada_actor = record { user_id = "u1"; email = "ada@example.com"; username = "ada" }

abbrev pub register_dto : RegisterDto
register_dto = record {
  email = "eve@example.com";
  username = "eve";
  password = "password";
  confirm_password = "password";
  first_name = "Eve";
  last_name = "Ade";
}
