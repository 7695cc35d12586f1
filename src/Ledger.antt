-- ===== src/Ledger.antt =====
-- Journal writes: src/modules/wallets/services/wallet-ledger-debit.service.ts,
-- wallet-ledger-credit.service.ts and their facade wallet-ledger.service.ts.
mod Inputs
pub use Inputs.*
pub mod Debits
pub mod Reversals
pub mod Writes
pub mod Aside
pub mod Credits
pub mod Completion
pub mod Recompletion
use Prim.Native.String.{◌++◌}
use prestohq_assessment.Prelude.{
  ℕ, String, Bool, true, false, not, Option, none, some, str_eq, ◌==◌, if◌then◌else◌,
}
use prestohq_assessment.Prelude.Int.{ℤ, pos, ltb_ℤ}
use prestohq_assessment.Prelude.Text.{includes}
use prestohq_assessment.Errors.{
  Error, custom_error, bad_request, not_found, unprocessable_entity, error_message,
}
use prestohq_assessment.Db.{
  WalletTransactionEntity, WalletTxPurpose, flutterwave_funding, reversal, credit, debit,
  WalletTxStatus, tx_pending, tx_successful, tx_failed,
}
use prestohq_assessment.Exec.{Action, pure, raise, raise_if, ◌>>=◌, ◌>>◌, transaction, rethrow}
use prestohq_assessment.Journal.{
  CreateWalletTransactionData, is_debit, sum_successful_balance, lock_wallet, find_by_id,
  find_by_idempotency_key, insert, update_status,
}

abbrev pub replayed : WalletTransactionEntity → LedgerWriteResult
replayed t = record { written = t; created = false; balance_after = none }

abbrev pub bad_amount : Error
bad_amount = custom_error bad_request "amount must be a positive integer (kobo)"

-- `assertAmount`: amounts are whole numbers already, so that they are positive is left to test.
abbrev pub assert_amount : ℕ → Action (Unit {0})
assert_amount amount = raise_if (amount == 0) bad_amount

-- `rethrowWalletMissing`
unfoldable pub rethrow_wallet_missing : String → Error → Error
rethrow_wallet_missing wallet_id e =
    if includes (error_message e) ("Wallet not found: " ++ wallet_id)
    then custom_error not_found "Wallet not found"
    else e

abbrev pub insufficient : Error
insufficient = custom_error unprocessable_entity "Insufficient wallet balance"

abbrev pub debit_data : PostDebitInput → CreateWalletTransactionData
debit_data i = record {
  wallet_id = i.wallet_id;
  type = debit;
  purpose = i.purpose;
  status = tx_successful;
  amount = i.amount;
  idempotency_key = i.idempotency_key;
  reference = i.reference;
  counterpart_wallet_id = i.counterpart_wallet_id;
  transfer_id = none;
  withdrawal_id = i.withdrawal_id;
  reverses_transaction_id = none;
}

abbrev pub insert_and_sum : CreateWalletTransactionData → Action LedgerWriteResult
insert_and_sum d = do
  t ← insert d
  balance_after ← sum_successful_balance d.wallet_id
  pure (record { written = t; created = true; balance_after = some balance_after })

-- The transaction of `postSuccessful`, after its second look at the key
unfoldable pub debit_unless :
    PostDebitInput → Option WalletTransactionEntity → Action LedgerWriteResult
debit_unless i (some again) = pure (replayed again)
debit_unless i none = do
  available ← sum_successful_balance i.wallet_id
  raise_if (ltb_ℤ available (pos i.amount)) insufficient
  insert_and_sum (debit_data i)

unfoldable pub debit_body : PostDebitInput → Action LedgerWriteResult
debit_body i = do
  lock_wallet i.wallet_id
  again ← find_by_idempotency_key i.idempotency_key
  debit_unless i again

abbrev pub post_debit_new :
    PostDebitInput → Option WalletTransactionEntity → Action LedgerWriteResult
post_debit_new i (some existing) = pure (replayed existing)
post_debit_new i none = rethrow (rethrow_wallet_missing i.wallet_id) (transaction (debit_body i))

-- `WalletLedgerDebitService.postSuccessful`
unfoldable pub post_debit_successful : PostDebitInput → Action LedgerWriteResult
post_debit_successful i = do
  assert_amount i.amount
  existing ← find_by_idempotency_key i.idempotency_key
  post_debit_new i existing

abbrev pub reversal_data : PostReversalInput → CreateWalletTransactionData
reversal_data i = record {
  wallet_id = i.wallet_id;
  type = credit;
  purpose = reversal;
  status = tx_successful;
  amount = i.amount;
  idempotency_key = i.idempotency_key;
  reference = i.reference;
  counterpart_wallet_id = none;
  transfer_id = none;
  withdrawal_id = i.withdrawal_id;
  reverses_transaction_id = some i.original_debit_id;
}

abbrev pub not_a_debit : Error
not_a_debit = custom_error bad_request "Original debit transaction not found"

abbrev pub wallet_mismatch : Error
wallet_mismatch = custom_error bad_request "Reversal wallet mismatch"

abbrev pub amount_mismatch : Error
amount_mismatch = custom_error bad_request "Reversal amount must match original debit"

-- The checks of `postReversal` against the debit that it compensates
unfoldable pub check_original :
    PostReversalInput → Option WalletTransactionEntity → Action (Unit {0})
check_original i none = raise not_a_debit
check_original i (some original) = do
  raise_if (not (is_debit original.type)) not_a_debit
  raise_if (not (str_eq original.wallet_id i.wallet_id)) wallet_mismatch
  raise_if (not (original.amount == i.amount)) amount_mismatch

unfoldable pub reversal_unless :
    PostReversalInput → Option WalletTransactionEntity → Action LedgerWriteResult
reversal_unless i (some again) = pure (replayed again)
reversal_unless i none = insert_and_sum (reversal_data i)

unfoldable pub reversal_body : PostReversalInput → Action LedgerWriteResult
reversal_body i = do
  lock_wallet i.wallet_id
  again ← find_by_idempotency_key i.idempotency_key
  reversal_unless i again

abbrev pub post_reversal_new :
    PostReversalInput → Option WalletTransactionEntity → Action LedgerWriteResult
post_reversal_new i (some existing) = pure (replayed existing)
post_reversal_new i none = do
  original ← find_by_id i.original_debit_id
  check_original i original
  rethrow (rethrow_wallet_missing i.wallet_id) (transaction (reversal_body i))

-- `WalletLedgerDebitService.postReversal`
unfoldable pub post_reversal_credit : PostReversalInput → Action LedgerWriteResult
post_reversal_credit i = do
  assert_amount i.amount
  existing ← find_by_idempotency_key i.idempotency_key
  post_reversal_new i existing

abbrev pub pending_data : PostCreditPendingInput → CreateWalletTransactionData
pending_data i = record {
  wallet_id = i.wallet_id;
  type = credit;
  purpose = flutterwave_funding;
  status = tx_pending;
  amount = i.amount;
  idempotency_key = i.idempotency_key;
  reference = i.reference;
  counterpart_wallet_id = none;
  transfer_id = i.transfer_id;
  withdrawal_id = none;
  reverses_transaction_id = none;
}

unfoldable pub pending_unless :
    PostCreditPendingInput → Option WalletTransactionEntity → Action LedgerWriteResult
pending_unless i (some again) = pure (replayed again)
pending_unless i none = do
  t ← insert (pending_data i)
  pure (record { written = t; created = true; balance_after = none })

unfoldable pub pending_body : PostCreditPendingInput → Action LedgerWriteResult
pending_body i = do
  lock_wallet i.wallet_id
  again ← find_by_idempotency_key i.idempotency_key
  pending_unless i again

abbrev pub post_pending_new :
    PostCreditPendingInput → Option WalletTransactionEntity → Action LedgerWriteResult
post_pending_new i (some existing) = pure (replayed existing)
post_pending_new i none = transaction (pending_body i)

-- `WalletLedgerCreditService.postPending`
unfoldable pub post_credit_pending : PostCreditPendingInput → Action LedgerWriteResult
post_credit_pending i = do
  assert_amount i.amount
  existing ← find_by_idempotency_key i.idempotency_key
  post_pending_new i existing

abbrev pub tx_mismatch : Error
tx_mismatch = custom_error bad_request "Transaction wallet mismatch"

abbrev pub tx_not_pending : Error
tx_not_pending = custom_error unprocessable_entity "Cannot complete credit in status FAILED"

abbrev pub tx_missing : Error
tx_missing = custom_error not_found "Wallet transaction not found"

abbrev pub require_tx : Option WalletTransactionEntity → Action WalletTransactionEntity
require_tx none = raise tx_missing
require_tx (some t) = pure t

-- What `completeSuccessful` does under the lock, by the status that it finds there
unfoldable pub complete_in : WalletTxStatus → WalletTransactionEntity → Action LedgerWriteResult
complete_in tx_successful t = do
  balance_after ← sum_successful_balance t.wallet_id
  pure (record { written = t; created = false; balance_after = some balance_after })
complete_in tx_pending t = do
  done ← update_status t.id tx_successful
  balance_after ← sum_successful_balance t.wallet_id
  pure (record { written = done; created = true; balance_after = some balance_after })
complete_in tx_failed t = raise tx_not_pending

unfoldable pub complete_body : CompleteCreditInput → Action LedgerWriteResult
complete_body i = do
  current ← require_tx (← find_by_id i.transaction_id)
  raise_if (not (str_eq current.wallet_id i.expected_wallet_id)) tx_mismatch
  lock_wallet current.wallet_id
  row ← require_tx (← find_by_id i.transaction_id)
  complete_in row.status row

-- `WalletLedgerCreditService.completeSuccessful`
unfoldable pub complete_credit_successful : CompleteCreditInput → Action LedgerWriteResult
complete_credit_successful i = transaction (complete_body i)
