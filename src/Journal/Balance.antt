-- ===== src/Journal/Balance.antt =====
-- How the two sums behind a balance move with each write, and the invariant that no wallet is
-- overdrawn.
use prestohq_assessment.Prelude.{
  ℕ, ◌+◌, ◌≤◌, String, not, ◌&&◌, if◌then◌else◌, sum_by, ◌≡◌, ◌⊎◌, inl, inr, some, none, List,
  arith, Bool-cases, Option-cases, find, update, append_row, sum_by-append_row, sum_by-update,
  is_some,
}
use prestohq_assessment.Db.{State, WalletTransactionEntity, WalletTxStatus, WithdrawalEntity}
use prestohq_assessment.Errors.{Error, wallet_missing}
use prestohq_assessment.Exec.{ok, err}
use prestohq_assessment.Journal.{
  Rows, CreateWalletTransactionData, credit_of, debit_of, credits, debits, by_id, by_key,
  set_status, new_row, with_row, insert, lock_wallet, int4_max, refusal, wallet_by_id, is_debit,
  is_successful,
}

-- 1 for a debit row that does not count yet.
abbrev pub unsettled_debit : WalletTransactionEntity → ℕ
unsettled_debit r = if is_debit r.type && not (is_successful r.status) then 1 else 0

abbrev pub unsettled_debits : Rows → ℕ
unsettled_debits rows = sum_by unsettled_debit rows

-- No wallet has spent more than it received, and no debit waits to be completed.
pub record IsSolvent (rows : Rows) : Type 0 where
  pub covered : (w : String) → debits w rows ≤ credits w rows
  pub settled : unsettled_debits rows ≡ 0

-- A property of the journal, as one of the state
abbrev pub InJournal : (Rows → Type 0) → State → Type 0
InJournal Q s = Q s.journal

-- A property of the journal and the withdrawals, as one of the state
abbrev pub InTables : (Rows → List WithdrawalEntity → Type 0) → State → Type 0
InTables Q s = Q s.journal s.withdrawals

abbrev pub SolventState : State → Type 0
SolventState = InJournal IsSolvent

pub credits-append_row :
    (w : String) (rows : Rows) (r : WalletTransactionEntity)
    → credits w (append_row rows r) ≡ credits w rows + credit_of w r
unfolding credits
credits-append_row w rows r = sum_by-append_row (credit_of w) rows r

pub debits-append_row :
    (w : String) (rows : Rows) (r : WalletTransactionEntity)
    → debits w (append_row rows r) ≡ debits w rows + debit_of w r
unfolding debits
debits-append_row w rows r = sum_by-append_row (debit_of w) rows r

pub credits-set_status :
    (w id : String) (st : WalletTxStatus) (rows : Rows) (old : WalletTransactionEntity)
    → find (by_id id) rows ≡ some old
    → credits w (update (by_id id) (set_status st) rows) + credit_of w old
      ≡ credits w rows + credit_of w (set_status st old)
unfolding credits
credits-set_status w id st rows old e =
    sum_by-update (credit_of w) (by_id id) (set_status st) rows old e

pub debits-set_status :
    (w id : String) (st : WalletTxStatus) (rows : Rows) (old : WalletTransactionEntity)
    → find (by_id id) rows ≡ some old
    → debits w (update (by_id id) (set_status st) rows) + debit_of w old
      ≡ debits w rows + debit_of w (set_status st old)
unfolding debits
debits-set_status w id st rows old e =
    sum_by-update (debit_of w) (by_id id) (set_status st) rows old e

-- An insertion is refused and changes nothing, or it appends the row under a new key.
pub insert-cases :
    (d : CreateWalletTransactionData) (s : State)
    → ((e : Error) × (insert d s ≡ (err e, s)))
      ⊎ ((insert d s ≡ (ok (new_row d s), with_row (new_row d s) s))
          × (find (by_key d.idempotency_key) s.journal ≡ none)
          × (d.amount ≤ int4_max))
unfolding insert
insert-cases d s = elim (Option-cases (refusal d s)) [
  | inl free ↦ inr (rw (free, insert), ground arith, ground arith)
  | inr (e, refused) ↦ inl (e, rw (refused, insert))
]

pub lock_wallet-cases :
    (id : String) (s : State)
    → ((e : Error) × (lock_wallet id s ≡ (err e, s))) ⊎ (lock_wallet id s ≡ (ok tt, s))
unfolding lock_wallet
lock_wallet-cases id s = elim (Bool-cases (is_some (find (wallet_by_id id) s.wallets))) [
  | inl there ↦ inr (rw there)
  | inr absent ↦ inl (wallet_missing id, rw absent)
]
