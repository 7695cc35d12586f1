-- ===== src/WithdrawalStore.antt =====
-- src/database/prisma/prisma-withdrawal.repository.ts, with the lock order of ledger-lock.util.ts. The
-- table has unique `id`, `(userId, idempotencyKey)` and `providerReference`, and an INT4 amount
-- (prisma/schema/withdrawal.prisma).
mod Inputs
pub use Inputs.*
mod Locks
unfoldable pub use Locks.*
pub mod Rows
pub mod Trail
pub mod Reconciled
pub mod P2p
pub mod P2pEffects
pub mod Bank
pub mod Acceptance
pub mod LockOrder
pub mod BankEffects
pub mod Transactions
pub mod Operations
pub mod Writes
use Prim.Native.String.{◌++◌, compare}
use text.Mathlib.Text.{is_le}
use prestohq_assessment.Prelude.{
  ℕ, String, Bool, true, false, not, Option, none, some, List, [], ◌∷◌, if◌then◌else◌, str_eq,
}
use prestohq_assessment.Prelude.Int.{pos, ltb_ℤ}
use prestohq_assessment.Prelude.Text.{starts_with}
use prestohq_assessment.Errors.{Error, custom_error, not_found, conflict, error_message}
use prestohq_assessment.Db.{
  State, WalletTransactionEntity, credit, debit, p2p, bank_payout, tx_successful, WithdrawalEntity,
  to_wallet, to_bank, processing, successful,
}
use prestohq_assessment.Exec.{Action, pure, raise_if, ◌>>=◌, ◌>>◌, transaction, rethrow}
use prestohq_assessment.Journal.{
  CreateWalletTransactionData, sum_successful_balance, lock_wallet, insert,
}
use prestohq_assessment.Ledger.{insufficient}
use prestohq_assessment.WithdrawalStore.Rows.{
  UpdateWithdrawalProviderData, no_change, create_withdrawal, update_withdrawal,
  find_by_user_and_idempotency_key,
}

abbrev pub key_reused : Error
key_reused = custom_error conflict "Idempotency-Key was already used with a different request body"

-- The look at the key before the transaction: a replay, or a conflict if the body was another one.
abbrev pub replay_existing : String → WithdrawalEntity → Action ExecuteResult
replay_existing hash existing = do
  raise_if (not (str_eq existing.request_body_hash hash)) key_reused
  pure (existing_result existing)

-- The `catch` of both transactions.
unfoldable pub rethrow_missing : Error → Error
rethrow_missing e =
    if starts_with (error_message e) "Wallet not found:"
    then custom_error not_found "Wallet not found"
    else e

abbrev pub p2p_row : ExecuteP2pWithdrawalData → State → WithdrawalEntity
p2p_row d s = record {
  id = s.cuid s.next_id;
  user_id = d.user_id;
  wallet_id = d.sender_wallet_id;
  amount = d.amount;
  currency = d.currency;
  destination_type = to_wallet;
  destination_wallet_id = some d.destination_wallet_id;
  bank_code = none;
  account_number = none;
  account_name = none;
  status = successful;
  provider_reference = none;
  provider_transfer_id = none;
  debit_transaction_id = none;
  credit_transaction_id = none;
  reversal_transaction_id = none;
  idempotency_key = d.idempotency_key;
  request_body_hash = d.request_body_hash;
  created_at = s.now;
}

abbrev pub p2p_debit : ExecuteP2pWithdrawalData → WithdrawalEntity → CreateWalletTransactionData
p2p_debit d w = record {
  wallet_id = d.sender_wallet_id;
  type = debit;
  purpose = p2p;
  status = tx_successful;
  amount = d.amount;
  idempotency_key = "p2p-debit:" ++ d.user_id ++ ":" ++ d.idempotency_key;
  reference = none;
  counterpart_wallet_id = some d.destination_wallet_id;
  transfer_id = none;
  withdrawal_id = some w.id;
  reverses_transaction_id = none;
}

abbrev pub p2p_credit : ExecuteP2pWithdrawalData → WithdrawalEntity → CreateWalletTransactionData
p2p_credit d w = record {
  wallet_id = d.destination_wallet_id;
  type = credit;
  purpose = p2p;
  status = tx_successful;
  amount = d.amount;
  idempotency_key = "p2p-credit:" ++ d.user_id ++ ":" ++ d.idempotency_key;
  reference = none;
  counterpart_wallet_id = some d.sender_wallet_id;
  transfer_id = none;
  withdrawal_id = some w.id;
  reverses_transaction_id = none;
}

-- The writes of a P2P withdrawal, after the check of the balance
unfoldable pub p2p_writes : ExecuteP2pWithdrawalData → Action ExecuteResult
p2p_writes d = do
  w ← create_withdrawal (p2p_row d)
  paid ← insert (p2p_debit d w)
  got ← insert (p2p_credit d w)
  updated ← update_withdrawal w.id (record no_change {
    debit_transaction_id = some (some paid.id);
    credit_transaction_id = some (some got.id);
  })
  pure (record { withdrawal = updated; created = true })

unfoldable pub p2p_unless :
    ExecuteP2pWithdrawalData → Option WithdrawalEntity → Action ExecuteResult
p2p_unless d (some again) = pure (existing_result again)
p2p_unless d none = do
  lock_all (sort_wallet_ids (d.sender_wallet_id ∷ d.destination_wallet_id ∷ []))
  available ← sum_successful_balance d.sender_wallet_id
  raise_if (ltb_ℤ available (pos d.amount)) insufficient
  p2p_writes d

-- The transaction of `executeP2p`
unfoldable pub p2p_body : ExecuteP2pWithdrawalData → Action ExecuteResult
p2p_body d = do
  again ← find_by_user_and_idempotency_key d.user_id d.idempotency_key
  p2p_unless d again

abbrev pub p2p_new : ExecuteP2pWithdrawalData → Option WithdrawalEntity → Action ExecuteResult
p2p_new d (some existing) = replay_existing d.request_body_hash existing
p2p_new d none = rethrow rethrow_missing (transaction (p2p_body d))

unfoldable pub execute_p2p : ExecuteP2pWithdrawalData → Action ExecuteResult
execute_p2p d = do
  existing ← find_by_user_and_idempotency_key d.user_id d.idempotency_key
  p2p_new d existing

abbrev pub bank_row : ExecuteBankWithdrawalData → State → WithdrawalEntity
bank_row d s = record {
  id = s.cuid s.next_id;
  user_id = d.user_id;
  wallet_id = d.wallet_id;
  amount = d.amount;
  currency = d.currency;
  destination_type = to_bank;
  destination_wallet_id = none;
  bank_code = some d.bank_code;
  account_number = some d.account_number;
  account_name = some d.account_name;
  status = processing;
  provider_reference = some d.provider_reference;
  provider_transfer_id = none;
  debit_transaction_id = none;
  credit_transaction_id = none;
  reversal_transaction_id = none;
  idempotency_key = d.idempotency_key;
  request_body_hash = d.request_body_hash;
  created_at = s.now;
}

abbrev pub bank_debit : ExecuteBankWithdrawalData → WithdrawalEntity → CreateWalletTransactionData
bank_debit d w = record {
  wallet_id = d.wallet_id;
  type = debit;
  purpose = bank_payout;
  status = tx_successful;
  amount = d.amount;
  idempotency_key = "bank-debit:" ++ d.user_id ++ ":" ++ d.idempotency_key;
  reference = some d.provider_reference;
  counterpart_wallet_id = none;
  transfer_id = none;
  withdrawal_id = some w.id;
  reverses_transaction_id = none;
}

unfoldable pub bank_writes : ExecuteBankWithdrawalData → Action ExecuteResult
bank_writes d = do
  w ← create_withdrawal (bank_row d)
  paid ← insert (bank_debit d w)
  updated ← update_withdrawal w.id (record no_change { debit_transaction_id = some (some paid.id) })
  pure (record { withdrawal = updated; created = true })

unfoldable pub bank_unless :
    ExecuteBankWithdrawalData → Option WithdrawalEntity → Action ExecuteResult
bank_unless d (some again) = pure (existing_result again)
bank_unless d none = do
  lock_wallet d.wallet_id
  available ← sum_successful_balance d.wallet_id
  raise_if (ltb_ℤ available (pos d.amount)) insufficient
  bank_writes d

-- The transaction of `executeBankAccept`
unfoldable pub bank_body : ExecuteBankWithdrawalData → Action ExecuteResult
bank_body d = do
  again ← find_by_user_and_idempotency_key d.user_id d.idempotency_key
  bank_unless d again

abbrev pub bank_new : ExecuteBankWithdrawalData → Option WithdrawalEntity → Action ExecuteResult
bank_new d (some existing) = replay_existing d.request_body_hash existing
bank_new d none = rethrow rethrow_missing (transaction (bank_body d))

unfoldable pub execute_bank_accept : ExecuteBankWithdrawalData → Action ExecuteResult
execute_bank_accept d = do
  existing ← find_by_user_and_idempotency_key d.user_id d.idempotency_key
  bank_new d existing
