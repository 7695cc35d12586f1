-- ===== src/Journal.antt =====
-- The wallet journal: src/database/prisma/prisma-wallet-transaction.repository.ts and
-- src/database/prisma/ledger-lock.util.ts. The table has unique `id` and `idempotencyKey`, and its
-- amounts are INT4 (prisma/schema/wallet.prisma).
pub mod Balance
pub mod Books
pub mod Keys
pub mod Accounting
pub mod Bookkeeping
pub mod Trail
pub mod Range
use prestohq_assessment.Prelude.{
  ℕ, ◌+◌, String, Bool, true, false, ◌&&◌, Option, none, some, List, ltb, if◌then◌else◌, is_some,
  str_eq, find, update, select, append_row, sum_by,
}
use prestohq_assessment.Prelude.Int.{ℤ, sub_ℕ}
use prestohq_assessment.Errors.{
  Error, wallet_missing, unique_violation, out_of_range, record_missing,
}
use prestohq_assessment.Db.{
  State, WalletEntity, WalletTransactionEntity, WalletTxType, credit, debit, WalletTxPurpose,
  WalletTxStatus, tx_pending, tx_successful, tx_failed,
}
use prestohq_assessment.Exec.{Action, ok, err, gets}

abbrev pub Rows : Type 0
Rows = List WalletTransactionEntity

pub record CreateWalletTransactionData : Type 0 where
  pub wallet_id : String
  pub type : WalletTxType
  pub purpose : WalletTxPurpose
  pub status : WalletTxStatus
  pub amount : ℕ
  pub idempotency_key : String
  pub reference : Option String
  pub counterpart_wallet_id : Option String
  pub transfer_id : Option String
  pub withdrawal_id : Option String
  pub reverses_transaction_id : Option String

-- The largest INT4.
abbrev pub int4_max : ℕ
int4_max = 2147483647

abbrev pub is_credit : WalletTxType → Bool
is_credit credit = true
is_credit debit = false

abbrev pub is_debit : WalletTxType → Bool
is_debit credit = false
is_debit debit = true

abbrev pub is_successful : WalletTxStatus → Bool
is_successful tx_pending = false
is_successful tx_successful = true
is_successful tx_failed = false

abbrev pub is_pending : WalletTxStatus → Bool
is_pending tx_pending = true
is_pending tx_successful = false
is_pending tx_failed = false

-- WHERE "walletId" = ... AND status = 'SUCCESSFUL'
abbrev pub counts_for : String → WalletTransactionEntity → Bool
counts_for w r = str_eq r.wallet_id w && is_successful r.status

-- CASE WHEN type = 'CREDIT' THEN amount ELSE 0 END
abbrev pub credit_of : String → WalletTransactionEntity → ℕ
credit_of w r = if counts_for w r && is_credit r.type then r.amount else 0

abbrev pub debit_of : String → WalletTransactionEntity → ℕ
debit_of w r = if counts_for w r && is_debit r.type then r.amount else 0

unfoldable pub credits : String → Rows → ℕ
credits w rows = sum_by (credit_of w) rows

unfoldable pub debits : String → Rows → ℕ
debits w rows = sum_by (debit_of w) rows

-- `sumSuccessfulBalance` as the value that the query computes
abbrev pub balance : String → Rows → ℤ
balance w rows = sub_ℕ (credits w rows) (debits w rows)

abbrev pub sum_successful_balance : String → Action ℤ
sum_successful_balance w = gets (λ s. balance w s.journal)

abbrev pub wallet_by_id : String → WalletEntity → Bool
wallet_by_id id w = str_eq w.id id

abbrev pub by_id : String → WalletTransactionEntity → Bool
by_id id r = str_eq r.id id

abbrev pub by_key : String → WalletTransactionEntity → Bool
by_key key r = str_eq r.idempotency_key key

-- `lockWalletRow`: SELECT id FROM wallets WHERE id = ... FOR UPDATE
unfoldable pub lock_wallet : String → Action (Unit {0})
lock_wallet id s =
    if is_some (find (wallet_by_id id) s.wallets) then (ok tt, s) else (err (wallet_missing id), s)

abbrev pub find_by_id : String → Action (Option WalletTransactionEntity)
find_by_id id = gets (λ s. find (by_id id) s.journal)

abbrev pub find_by_idempotency_key : String → Action (Option WalletTransactionEntity)
find_by_idempotency_key key = gets (λ s. find (by_key key) s.journal)

abbrev pub for_transfer : String → WalletTransactionEntity → Bool
for_transfer id r = elim r.transfer_id [ none ↦ false | some t ↦ str_eq t id ]

-- Rows come in the order of insertion, which is that of `createdAt`.
abbrev pub find_by_transfer_id : String → Action Rows
find_by_transfer_id id = gets (λ s. select (for_transfer id) s.journal)

abbrev pub new_row : CreateWalletTransactionData → State → WalletTransactionEntity
new_row d s = record {
  id = s.cuid s.next_id;
  wallet_id = d.wallet_id;
  type = d.type;
  purpose = d.purpose;
  status = d.status;
  amount = d.amount;
  idempotency_key = d.idempotency_key;
  reference = d.reference;
  counterpart_wallet_id = d.counterpart_wallet_id;
  transfer_id = d.transfer_id;
  withdrawal_id = d.withdrawal_id;
  reverses_transaction_id = d.reverses_transaction_id;
  created_at = s.now;
}

abbrev pub with_row : WalletTransactionEntity → State → State
with_row r s = record s { journal = append_row s.journal r; next_id = s.next_id + 1 }

-- What the table refuses: an amount past INT4, a key or an identifier that is taken.
abbrev pub refusal : CreateWalletTransactionData → State → Option Error
refusal d s =
    if ltb int4_max d.amount
    then some out_of_range
    else if is_some (find (by_key d.idempotency_key) s.journal)
    then some unique_violation
    else if is_some (find (by_id (s.cuid s.next_id)) s.journal)
    then some unique_violation
    else none

-- `insert`
unfoldable pub insert : CreateWalletTransactionData → Action WalletTransactionEntity
insert d s = elim (refusal d s) [
  | none ↦ (ok (new_row d s), with_row (new_row d s) s)
  | some e ↦ (err e, s)
]

abbrev pub set_status : WalletTxStatus → WalletTransactionEntity → WalletTransactionEntity
set_status st r = record r { status = st }

-- `updateStatus`
unfoldable pub update_status : String → WalletTxStatus → Action WalletTransactionEntity
update_status id st s = elim (find (by_id id) s.journal) [
  | none ↦ (err record_missing, s)
  | some r ↦
      (ok (set_status st r), record s { journal = update (by_id id) (set_status st) s.journal })
]
