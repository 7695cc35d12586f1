-- ===== src/WithdrawalStore/Inputs.antt =====
-- The arguments and the result of the two transactions of withdrawals, in
-- src/database/repositories/withdrawal.repository.ts.
use prestohq_assessment.Prelude.{ℕ, String, Bool, false}
use prestohq_assessment.Db.{WithdrawalEntity}

pub record ExecuteP2pWithdrawalData : Type 0 where
  pub user_id : String
  pub sender_wallet_id : String
  pub destination_wallet_id : String
  pub amount : ℕ
  pub currency : String
  pub idempotency_key : String
  pub request_body_hash : String

pub record ExecuteBankWithdrawalData : Type 0 where
  pub user_id : String
  pub wallet_id : String
  pub amount : ℕ
  pub currency : String
  pub bank_code : String
  pub account_number : String
  pub account_name : String
  pub provider_reference : String
  pub idempotency_key : String
  pub request_body_hash : String

-- `ExecuteP2pWithdrawalResult` and `ExecuteBankWithdrawalResult`
pub record ExecuteResult : Type 0 where
  pub withdrawal : WithdrawalEntity
  pub created : Bool

abbrev pub existing_result : WithdrawalEntity → ExecuteResult
existing_result w = record { withdrawal = w; created = false }
