-- ===== src/Transfers/Create.antt =====
-- src/modules/transfers/services/transfer-create.service.ts: a request to fund a wallet.
use Prim.Native.String.{◌++◌}
use prestohq_assessment.Prelude.{ℕ, ◌+◌, String, not, Option, none, some, or_else, str_eq}
use prestohq_assessment.Prelude.Text.{trim, to_upper_case, slice_to, remove_dashes}
use prestohq_assessment.Errors.{Error, custom_error, bad_request, not_found, conflict}
use prestohq_assessment.Db.{
  TransferEntity, TransferStatus, transfer_initiated, transfer_pending, WalletEntity, UserEntity,
}
use prestohq_assessment.Exec.{
  Action, pure, raise_if, or_raise, gets, modify, lift, ◌>>=◌, ◌>>◌, Response,
}
use prestohq_assessment.Ledger.{PostCreditPendingInput, post_credit_pending}
use prestohq_assessment.UserStore.{find_user, find_wallet_by_user_id}
use prestohq_assessment.TransferStore.{
  CreateTransferData, find_transfer_by_user_and_key, create_transfer, update_transfer,
}
use prestohq_assessment.Provider.{FlutterwaveProvider, InitiatePaymentParams}
use prestohq_assessment.Environment.{Environment, Actor, transfer_body}
use prestohq_assessment.Auth.{verify_pin}
use prestohq_assessment.Auth.Credential.{user_not_found}

pub record CreateTransferDto : Type 0 where
  pub amount : ℕ
  pub currency : Option String
  pub pin : String

-- The transfer as the answers show it (src/modules/transfers/interfaces/transfers.interface.ts).
pub record TransferView : Type 0 where
  pub id : String
  pub amount : ℕ
  pub currency : String
  pub status : TransferStatus
  pub flutterwave_tx_ref : String
  pub checkout_url : Option String
  pub created_at : ℕ

abbrev pub to_view : TransferEntity → TransferView
to_view t = record {
  id = t.id;
  amount = t.amount;
  currency = t.currency;
  status = t.status;
  flutterwave_tx_ref = t.flutterwave_tx_ref;
  checkout_url = t.checkout_url;
  created_at = t.created_at;
}

-- `toResponse`
abbrev pub to_response : TransferEntity → String → Response TransferView
to_response t message = record { message = message; body = to_view t }

abbrev pub only_ngn : Error
only_ngn = custom_error bad_request "Only NGN is supported"

abbrev pub key_reused : Error
key_reused = custom_error conflict "Idempotency-Key was already used with a different request body"

abbrev pub wallet_not_found : Error
wallet_not_found = custom_error not_found "Wallet not found"

-- A random UUID without its dashes, from the generator.
abbrev pub next_uuid_digits : Action String
next_uuid_digits = do
  u ← gets (λ s. s.random_uuid s.next_uuid)
  modify (λ s. record s { next_uuid = s.next_uuid + 1 })
  pure (remove_dashes u)

-- `newFlutterwaveTxRef`
unfoldable pub new_flutterwave_tx_ref : String → Action String
new_flutterwave_tx_ref user_id = do
  digits ← next_uuid_digits
  pure ("fund_" ++ slice_to 8 user_id ++ "_" ++ digits)

abbrev pub currency_of : CreateTransferDto → String
currency_of dto = to_upper_case (or_else dto.currency "NGN")

abbrev pub transfer_data :
    Environment → Actor → CreateTransferDto → String → WalletEntity → String → CreateTransferData
transfer_data env actor dto key wallet tx_ref = record {
  user_id = actor.user_id;
  wallet_id = wallet.id;
  amount = dto.amount;
  currency = some (currency_of dto);
  flutterwave_tx_ref = tx_ref;
  idempotency_key = key;
  request_body_hash = env.hash_request_body (transfer_body dto.amount (currency_of dto));
  status = some transfer_initiated;
}

abbrev pub funding_input :
    Actor
    → CreateTransferDto
    → String
    → WalletEntity
    → String
    → TransferEntity
    → PostCreditPendingInput
funding_input actor dto key wallet tx_ref transfer = record {
  wallet_id = wallet.id;
  amount = dto.amount;
  idempotency_key = "funding:" ++ actor.user_id ++ ":" ++ key;
  reference = some tx_ref;
  transfer_id = some transfer.id;
}

abbrev pub payment_params :
    Environment → CreateTransferDto → UserEntity → String → InitiatePaymentParams
payment_params env dto user tx_ref = record {
  tx_ref = tx_ref;
  amount_kobo = dto.amount;
  currency = currency_of dto;
  customer_email = user.email;
  customer_name = trim (user.first_name ++ " " ++ user.last_name);
  redirect_url = or_else env.redirect_url "http://localhost:3010/funding/callback";
}

-- The provider's part of a request with a new key, after the rows are written
abbrev pub pay_in :
    Environment
    → FlutterwaveProvider
    → CreateTransferDto
    → UserEntity
    → String
    → TransferEntity
    → Action (Response TransferView)
pay_in env flutterwave dto user tx_ref transfer = do
  payment ← lift (flutterwave.initiate_payment (payment_params env dto user tx_ref))
  updated ← update_transfer transfer.id (record {
    status = some transfer_pending;
    checkout_url = some (some payment.checkout_url);
    flutterwave_id = some payment.provider_payment_id;
  })
  pure (to_response updated "Transfer initiated successfully")

abbrev pub create_rows :
    Environment
    → FlutterwaveProvider
    → Actor
    → CreateTransferDto
    → String
    → WalletEntity
    → UserEntity
    → String
    → Action (Response TransferView)
create_rows env flutterwave actor dto key wallet user tx_ref = do
  transfer ← create_transfer (transfer_data env actor dto key wallet tx_ref)
  post_credit_pending (funding_input actor dto key wallet tx_ref transfer)
  pay_in env flutterwave dto user tx_ref transfer

-- A request with a new key: the rows are written before the provider is asked.
unfoldable pub create_new :
    Environment
    → FlutterwaveProvider
    → Actor
    → CreateTransferDto
    → String
    → Action (Response TransferView)
create_new env flutterwave actor dto key = do
  owned ← find_wallet_by_user_id actor.user_id
  wallet ← or_raise owned wallet_not_found
  found ← find_user actor.user_id
  user ← or_raise found user_not_found
  tx_ref ← new_flutterwave_tx_ref actor.user_id
  create_rows env flutterwave actor dto key wallet user tx_ref

abbrev pub create_unless :
    Environment
    → FlutterwaveProvider
    → Actor
    → CreateTransferDto
    → String
    → Option TransferEntity
    → Action (Response TransferView)
create_unless env flutterwave actor dto key (some existing) = do
  raise_if
      (not (
        str_eq existing.request_body_hash
          (env.hash_request_body (transfer_body dto.amount (currency_of dto)))))
      key_reused
  pure (to_response existing "Transfer already exists (idempotent replay)")
create_unless env flutterwave actor dto key none = create_new env flutterwave actor dto key

-- `TransferCreateService.create`
unfoldable pub create :
    Environment
    → FlutterwaveProvider
    → Actor
    → CreateTransferDto
    → String
    → Action (Response TransferView)
create env flutterwave actor dto key = do
  verify_pin env actor.user_id dto.pin
  raise_if (not (str_eq (currency_of dto) "NGN")) only_ngn
  existing ← find_transfer_by_user_and_key actor.user_id key
  create_unless env flutterwave actor dto key existing
