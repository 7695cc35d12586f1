-- ===== src/Ledger/Inputs.antt =====
-- The arguments and the result of the journal writes:
-- src/modules/wallets/interfaces/wallet-ledger.interface.ts.
use prestohq_assessment.Prelude.{ℕ, String, Bool, Option}
use prestohq_assessment.Prelude.Int.{ℤ}
use prestohq_assessment.Db.{WalletTransactionEntity, WalletTxPurpose}

pub record PostCreditPendingInput : Type 0 where
  pub wallet_id : String
  pub amount : ℕ
  pub idempotency_key : String
  pub reference : Option String
  pub transfer_id : Option String

pub record CompleteCreditInput : Type 0 where
  pub transaction_id : String
  pub expected_wallet_id : String

pub record PostDebitInput : Type 0 where
  pub wallet_id : String
  pub amount : ℕ
  pub purpose : WalletTxPurpose
  pub idempotency_key : String
  pub reference : Option String
  pub counterpart_wallet_id : Option String
  pub withdrawal_id : Option String

pub record PostReversalInput : Type 0 where
  pub wallet_id : String
  pub amount : ℕ
  pub original_debit_id : String
  pub idempotency_key : String
  pub withdrawal_id : Option String
  pub reference : Option String

pub record LedgerWriteResult : Type 0 where
  pub written : WalletTransactionEntity
  pub created : Bool
  pub balance_after : Option ℤ
