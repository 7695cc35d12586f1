-- ===== src/Db/Entities.antt =====
-- The rows of the tables, as the interfaces of src/database/repositories declare them. Amounts are
-- whole kobo, dates are milliseconds.
use prestohq_assessment.Prelude.{ℕ, String, Option}

pub data WalletTxType : Type 0 where
  credit debit : WalletTxType

pub data WalletTxPurpose : Type 0 where
  flutterwave_funding p2p bank_payout reversal : WalletTxPurpose

pub data WalletTxStatus : Type 0 where
  tx_pending tx_successful tx_failed : WalletTxStatus

pub data TransferStatus : Type 0 where
  transfer_initiated transfer_pending transfer_successful transfer_failed : TransferStatus

pub data WithdrawalDestinationType : Type 0 where
  to_wallet to_bank : WithdrawalDestinationType

pub data WithdrawalStatus : Type 0 where
  pending processing successful failed reversed : WithdrawalStatus

pub data WalletStatus : Type 0 where
  active locked : WalletStatus

pub data WebhookEventStatus : Type 0 where
  received processed event_failed : WebhookEventStatus

pub record UserEntity : Type 0 where
  pub id : String
  pub email : String
  pub username : String
  pub first_name : String
  pub last_name : String
  pub password_hash : String
  pub password_try_count : ℕ
  pub password_locked_until : Option ℕ
  pub pin_hash : Option String
  pub pin_try_count : ℕ
  pub pin_locked_until : Option ℕ
  pub created_at : ℕ

pub record WalletEntity : Type 0 where
  pub id : String
  pub user_id : String
  pub currency : String
  pub status : WalletStatus
  pub created_at : ℕ

pub record WalletTransactionEntity : Type 0 where
  pub id : String
  pub wallet_id : String
  pub type : WalletTxType
  pub purpose : WalletTxPurpose
  pub status : WalletTxStatus
  pub amount : ℕ
  pub idempotency_key : String
  pub reference : Option String
  pub counterpart_wallet_id : Option String
  pub transfer_id : Option String
  pub withdrawal_id : Option String
  pub reverses_transaction_id : Option String
  pub created_at : ℕ

pub record TransferEntity : Type 0 where
  pub id : String
  pub user_id : String
  pub wallet_id : String
  pub amount : ℕ
  pub currency : String
  pub status : TransferStatus
  pub flutterwave_tx_ref : String
  pub flutterwave_id : Option String
  pub checkout_url : Option String
  pub idempotency_key : String
  pub request_body_hash : String
  pub created_at : ℕ

pub record WithdrawalEntity : Type 0 where
  pub id : String
  pub user_id : String
  pub wallet_id : String
  pub amount : ℕ
  pub currency : String
  pub destination_type : WithdrawalDestinationType
  pub destination_wallet_id : Option String
  pub bank_code : Option String
  pub account_number : Option String
  pub account_name : Option String
  pub status : WithdrawalStatus
  pub provider_reference : Option String
  pub provider_transfer_id : Option String
  pub debit_transaction_id : Option String
  pub credit_transaction_id : Option String
  pub reversal_transaction_id : Option String
  pub idempotency_key : String
  pub request_body_hash : String
  pub created_at : ℕ

-- A value of a webhook body: a string, a number (as a template writes it), or anything else.
pub data JsValue : Type 0 where
  text number : String → JsValue
  other : JsValue

-- The members of a webhook's `data` that the program reads.
pub record PayloadData : Type 0 where
  pub id : JsValue
  pub tx_ref : JsValue
  pub tx_ref_camel : JsValue

-- The members of a webhook body that the program reads; `data_object` is `data` if it is an object.
pub record Payload : Type 0 where
  pub event : JsValue
  pub id : JsValue
  pub tx_ref : JsValue
  pub tx_ref_camel : JsValue
  pub data_object : Option PayloadData

pub record WebhookEventEntity : Type 0 where
  pub id : String
  pub event_type : String
  pub provider_event_id : String
  pub reference : Option String
  pub payload : Payload
  pub status : WebhookEventStatus
  pub processed_at : Option ℕ
  pub created_at : ℕ
