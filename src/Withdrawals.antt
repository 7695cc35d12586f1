-- ===== src/Withdrawals.antt =====
-- src/modules/withdrawals/services: withdrawals to another wallet or to a bank account.
use Prim.Native.String.{◌++◌}
use prestohq_assessment.Prelude.{
  ℕ, String, Bool, true, false, not, ◌||◌, Option, none, some, List, map, or_else, str_eq,
  append_row, if◌then◌else◌,
}
use prestohq_assessment.Prelude.Text.{trim, to_lower_case, to_upper_case, slice_to, truthy}
use prestohq_assessment.Errors.{Error, custom_error, bad_request, not_found, unprocessable_entity}
use prestohq_assessment.Db.{
  WalletEntity, WalletStatus, active, locked, WithdrawalEntity, WithdrawalStatus,
  WithdrawalDestinationType, to_wallet, to_bank,
}
use prestohq_assessment.Exec.{
  Action, pure, raise, raise_if, or_raise, modify, when, ◌>>=◌, ◌>>◌, Response,
}
use prestohq_assessment.UserStore.{find_by_username, find_wallet_by_user_id}
use prestohq_assessment.WithdrawalStore.{
  ExecuteP2pWithdrawalData, ExecuteBankWithdrawalData, execute_p2p, execute_bank_accept,
}
use prestohq_assessment.WithdrawalStore.Rows.{find_withdrawal, list_by_user_id}
use prestohq_assessment.Environment.{Environment, Actor, wallet_body, bank_body}
use prestohq_assessment.Auth.{verify_pin}
use prestohq_assessment.Transfers.{only_ngn, wallet_not_found, next_uuid_digits}

pub record CreateWithdrawalDto : Type 0 where
  pub destination_type : WithdrawalDestinationType
  pub recipient_username : Option String
  pub bank_code : Option String
  pub account_number : Option String
  pub account_name : Option String
  pub amount : ℕ
  pub currency : Option String
  pub pin : String

-- `toSummary`
pub record WithdrawalView : Type 0 where
  pub id : String
  pub amount : ℕ
  pub currency : String
  pub destination_type : WithdrawalDestinationType
  pub destination_wallet_id : Option String
  pub status : WithdrawalStatus
  pub provider_reference : Option String
  pub created_at : ℕ

abbrev pub to_summary : WithdrawalEntity → WithdrawalView
to_summary w = record {
  id = w.id;
  amount = w.amount;
  currency = w.currency;
  destination_type = w.destination_type;
  destination_wallet_id = w.destination_wallet_id;
  status = w.status;
  provider_reference = w.provider_reference;
  created_at = w.created_at;
}

abbrev pub replay_message : String
replay_message = "Withdrawal already exists (idempotent replay)"

abbrev pub currency_of : CreateWithdrawalDto → String
currency_of dto = to_upper_case (or_else dto.currency "NGN")

abbrev pub is_active : WalletStatus → Bool
is_active active = true
is_active locked = false

abbrev pub wallet_not_active : Error
wallet_not_active = custom_error unprocessable_entity "Wallet is not active"

-- `!value`, for a field that may be absent
abbrev pub blank : Option String → Bool
blank none = true
blank (some t) = not (truthy t)

abbrev pub recipient_of : CreateWithdrawalDto → String
recipient_of dto = to_lower_case (trim (or_else dto.recipient_username ""))

abbrev pub p2p_data :
    Environment
    → Actor
    → CreateWithdrawalDto
    → String
    → WalletEntity
    → WalletEntity
    → ExecuteP2pWithdrawalData
p2p_data env actor dto key sender destination = record {
  user_id = actor.user_id;
  sender_wallet_id = sender.id;
  destination_wallet_id = destination.id;
  amount = dto.amount;
  currency = currency_of dto;
  idempotency_key = key;
  request_body_hash =
      env.hash_request_body (wallet_body (recipient_of dto) dto.amount (currency_of dto));
}

-- The answers of a creation leave out one column each, written as `none`.
abbrev pub p2p_view : WithdrawalEntity → WithdrawalView
p2p_view w = record (to_summary w) { provider_reference = none }

abbrev pub bank_view : WithdrawalEntity → WithdrawalView
bank_view w = record (to_summary w) { destination_wallet_id = none }

-- `WithdrawalP2pService.create`
unfoldable pub create_p2p :
    Environment → Actor → CreateWithdrawalDto → String → Action (Response WithdrawalView)
create_p2p env actor dto key = do
  raise_if (not (str_eq (currency_of dto) "NGN")) only_ngn
  raise_if (blank dto.recipient_username)
      (custom_error bad_request "recipientUsername is required for WALLET withdrawals")
  own ← find_wallet_by_user_id actor.user_id
  sender ← or_raise own wallet_not_found
  found ← find_by_username (recipient_of dto)
  recipient ← or_raise found (custom_error not_found "Recipient user not found")
  raise_if (str_eq recipient.id actor.user_id)
      (custom_error bad_request "Cannot transfer to your own wallet")
  theirs ← find_wallet_by_user_id recipient.id
  destination ← or_raise theirs (custom_error not_found "Recipient wallet not found")
  raise_if (not (is_active destination.status) || not (is_active sender.status)) wallet_not_active
  result ← execute_p2p (p2p_data env actor dto key sender destination)
  pure (record {
    message = if result.created then "P2P withdrawal completed successfully" else replay_message;
    body = p2p_view result.withdrawal;
  })

abbrev pub trimmed : Option String → String
trimmed o = trim (or_else o "")

abbrev pub enqueue_payout : String → Action (Unit {0})
enqueue_payout id = modify (λ s. record s {
  payout_queue =
      append_row s.payout_queue
        (record { name = "payout"; subject = id; job_id = "withdrawal-payout-" ++ id });
})

abbrev pub bank_data :
    Environment → Actor → CreateWithdrawalDto → String → String → String → ExecuteBankWithdrawalData
bank_data env actor dto key wallet_id provider_reference = record {
  user_id = actor.user_id;
  wallet_id = wallet_id;
  amount = dto.amount;
  currency = currency_of dto;
  bank_code = trimmed dto.bank_code;
  account_number = trimmed dto.account_number;
  account_name = trimmed dto.account_name;
  provider_reference = provider_reference;
  idempotency_key = key;
  request_body_hash = env.hash_request_body (
      bank_body (trimmed dto.bank_code) (trimmed dto.account_number) (trimmed dto.account_name)
        dto.amount (currency_of dto));
}

-- `WithdrawalBankService.create`
unfoldable pub create_bank :
    Environment → Actor → CreateWithdrawalDto → String → Action (Response WithdrawalView)
create_bank env actor dto key = do
  raise_if (not (str_eq (currency_of dto) "NGN")) only_ngn
  raise_if
      (not (truthy (trimmed dto.bank_code))
        || not (truthy (trimmed dto.account_number))
        || not (truthy (trimmed dto.account_name)))
      (custom_error bad_request
        "bankCode, accountNumber, and accountName are required for BANK withdrawals")
  own ← find_wallet_by_user_id actor.user_id
  wallet ← or_raise own wallet_not_found
  raise_if (not (is_active wallet.status)) wallet_not_active
  digits ← next_uuid_digits
  result ←
      execute_bank_accept
        (bank_data env actor dto key wallet.id ("wd_" ++ slice_to 8 actor.user_id ++ "_" ++ digits))
  when result.created (enqueue_payout result.withdrawal.id)
  pure (record {
    message =
        if result.created then "Bank withdrawal accepted and queued for payout" else replay_message;
    body = bank_view result.withdrawal;
  })

abbrev pub create_to :
    WithdrawalDestinationType
    → Environment
    → Actor
    → CreateWithdrawalDto
    → String
    → Action (Response WithdrawalView)
create_to to_wallet env actor dto key = create_p2p env actor dto key
create_to to_bank env actor dto key = create_bank env actor dto key

-- `WithdrawalsService.create`
unfoldable pub create :
    Environment → Actor → CreateWithdrawalDto → String → Action (Response WithdrawalView)
create env actor dto key = do
  verify_pin env actor.user_id dto.pin
  create_to dto.destination_type env actor dto key

-- `listMine`
unfoldable pub list_mine : Actor → Action (Response (List WithdrawalView))
list_mine actor = do
  rows ← list_by_user_id actor.user_id
  pure (record { message = "Withdrawals retrieved successfully"; body = map to_summary rows })

abbrev pub owned_withdrawal : Actor → Option WithdrawalEntity → Action WithdrawalEntity
owned_withdrawal actor none = raise (custom_error not_found "Withdrawal not found")
owned_withdrawal actor (some w) = do
  raise_if (not (str_eq w.user_id actor.user_id)) (custom_error not_found "Withdrawal not found")
  pure w

-- `getOne`
unfoldable pub get_one : Actor → String → Action (Response WithdrawalView)
get_one actor id = do
  found ← find_withdrawal id
  w ← owned_withdrawal actor found
  pure (record { message = "Withdrawal retrieved successfully"; body = to_summary w })
