-- ===== src/WithdrawalStore/Rows.antt =====
-- The reads and single-row writes of src/database/prisma/prisma-withdrawal.repository.ts, and what a
-- creation or an update can come to.
use prestohq_assessment.Prelude.{
  ◌+◌, String, ◌≡◌, ◌⊎◌, inl, inr, Bool, false, ◌&&◌, Option, none, some, List, ltb, if◌then◌else◌,
  is_some, or_else, str_eq, find, update, select, append_row, Option-cases, arith, eq_refl,
  find-append_row-none, update-append_row,
}
use mathlib.Core.List.{reverse}
use prestohq_assessment.Errors.{Error, unique_violation, out_of_range, record_missing}
use prestohq_assessment.Db.{State, WithdrawalEntity, WithdrawalStatus}
use prestohq_assessment.Exec.{Action, ok, err, gets}
use prestohq_assessment.Journal.{int4_max}

abbrev pub withdrawal_by_id : String → WithdrawalEntity → Bool
withdrawal_by_id id w = str_eq w.id id

abbrev pub by_user_and_key : String → String → WithdrawalEntity → Bool
by_user_and_key user_id key w = str_eq w.user_id user_id && str_eq w.idempotency_key key

-- A null reference equals nothing.
abbrev pub by_reference : Option String → WithdrawalEntity → Bool
by_reference none w = false
by_reference (some r) w = elim w.provider_reference [ none ↦ false | some q ↦ str_eq q r ]

abbrev pub by_user : String → WithdrawalEntity → Bool
by_user user_id w = str_eq w.user_id user_id

abbrev pub find_withdrawal : String → Action (Option WithdrawalEntity)
find_withdrawal id = gets (λ s. find (withdrawal_by_id id) s.withdrawals)

abbrev pub find_by_user_and_idempotency_key : String → String → Action (Option WithdrawalEntity)
find_by_user_and_idempotency_key user_id key =
    gets (λ s. find (by_user_and_key user_id key) s.withdrawals)

abbrev pub find_by_provider_reference : String → Action (Option WithdrawalEntity)
find_by_provider_reference r = gets (λ s. find (by_reference (some r)) s.withdrawals)

-- Newest first.
abbrev pub list_by_user_id : String → Action (List WithdrawalEntity)
list_by_user_id user_id = gets (λ s. reverse (select (by_user user_id) s.withdrawals))

abbrev pub withdrawal_refusal : WithdrawalEntity → State → Option Error
withdrawal_refusal w s =
    if ltb int4_max w.amount
    then some out_of_range
    else if is_some (find (by_user_and_key w.user_id w.idempotency_key) s.withdrawals)
    then some unique_violation
    else if is_some (find (by_reference w.provider_reference) s.withdrawals)
    then some unique_violation
    else if is_some (find (withdrawal_by_id w.id) s.withdrawals)
    then some unique_violation
    else none

abbrev pub with_withdrawal : WithdrawalEntity → State → State
with_withdrawal w s = record s { withdrawals = append_row s.withdrawals w; next_id = s.next_id + 1 }

-- `withdrawal.create`
unfoldable pub create_withdrawal : (State → WithdrawalEntity) → Action WithdrawalEntity
create_withdrawal row s = elim (withdrawal_refusal (row s) s) [
  | none ↦ (ok (row s), with_withdrawal (row s) s)
  | some e ↦ (err e, s)
]

-- `none` leaves a column as it is.
pub record UpdateWithdrawalProviderData : Type 0 where
  pub status : Option WithdrawalStatus
  pub provider_transfer_id : Option (Option String)
  pub debit_transaction_id : Option (Option String)
  pub credit_transaction_id : Option (Option String)
  pub reversal_transaction_id : Option (Option String)

abbrev pub no_change : UpdateWithdrawalProviderData
no_change = record {
  status = none;
  provider_transfer_id = none;
  debit_transaction_id = none;
  credit_transaction_id = none;
  reversal_transaction_id = none;
}

abbrev pub apply_update : UpdateWithdrawalProviderData → WithdrawalEntity → WithdrawalEntity
apply_update d w = record w {
  status = or_else d.status w.status;
  provider_transfer_id = or_else d.provider_transfer_id w.provider_transfer_id;
  debit_transaction_id = or_else d.debit_transaction_id w.debit_transaction_id;
  credit_transaction_id = or_else d.credit_transaction_id w.credit_transaction_id;
  reversal_transaction_id = or_else d.reversal_transaction_id w.reversal_transaction_id;
}

abbrev pub with_update : String → UpdateWithdrawalProviderData → State → State
with_update id d s = record s {
  withdrawals = update (withdrawal_by_id id) (apply_update d) s.withdrawals;
}

-- `update`
unfoldable pub update_withdrawal : String → UpdateWithdrawalProviderData → Action WithdrawalEntity
update_withdrawal id d s = elim (find (withdrawal_by_id id) s.withdrawals) [
  | none ↦ (err record_missing, s)
  | some w ↦ (ok (apply_update d w), with_update id d s)
]

pub create_withdrawal-cases :
    (row : State → WithdrawalEntity) (s : State)
    → ((e : Error) × (create_withdrawal row s ≡ (err e, s)))
      ⊎ ((create_withdrawal row s ≡ (ok (row s), with_withdrawal (row s) s))
          × (find (by_user_and_key (row s).user_id (row s).idempotency_key) s.withdrawals ≡ none)
          × (find (withdrawal_by_id (row s).id) s.withdrawals ≡ none))
unfolding create_withdrawal
create_withdrawal-cases row s = elim (Option-cases (withdrawal_refusal (row s) s)) [
  | inl free ↦ inr (rw (free, create_withdrawal), ground arith, ground arith)
  | inr (e, refused) ↦ inl (e, rw (refused, create_withdrawal))
]

pub update_withdrawal_known :
    (id : String) (d : UpdateWithdrawalProviderData) (s : State) (w : WithdrawalEntity)
    → find (withdrawal_by_id id) s.withdrawals ≡ some w
    → update_withdrawal id d s ≡ (ok (apply_update d w), with_update id d s)
unfolding update_withdrawal
update_withdrawal_known id d s w found = rw (found, update_withdrawal)

pub update_withdrawal-cases :
    (id : String) (d : UpdateWithdrawalProviderData) (s : State)
    → (update_withdrawal id d s ≡ (err record_missing, s))
      ⊎ ((w : WithdrawalEntity) × (update_withdrawal id d s
            ≡ (ok (apply_update d w), with_update id d s))
          × (find (withdrawal_by_id id) s.withdrawals ≡ some w))
unfolding update_withdrawal
update_withdrawal-cases id d s = elim (Option-cases (find (withdrawal_by_id id) s.withdrawals)) [
  | inl absent ↦ inl (rw (absent, update_withdrawal))
  | inr (w, found) ↦ inr (w, rw (found, update_withdrawal), found)
]

-- A row that was just created is found by its identifier.
pub find-created :
    (rows : List WithdrawalEntity) (w : WithdrawalEntity)
    → find (withdrawal_by_id w.id) rows ≡ none
    → find (withdrawal_by_id w.id) (append_row rows w) ≡ some w
find-created rows w free =
    rw (find-append_row-none (withdrawal_by_id w.id) rows w free) (rw (eq_refl w.id))

-- After an update by identifier it is found by its user and key.
pub find-created_updated :
    (rows : List WithdrawalEntity) (w : WithdrawalEntity) (d : UpdateWithdrawalProviderData)
    → find (withdrawal_by_id w.id) rows ≡ none
    → find (by_user_and_key w.user_id w.idempotency_key) rows ≡ none
    → find
        (by_user_and_key w.user_id w.idempotency_key)
        (update (withdrawal_by_id w.id) (apply_update d) (append_row rows w))
      ≡ some (apply_update d w)
find-created_updated rows w d free new =
    rw (update-append_row (withdrawal_by_id w.id) (apply_update d) rows w free (eq_refl w.id)) (
      rw
        (find-append_row-none (by_user_and_key w.user_id w.idempotency_key) rows (apply_update d w)
          new)
        (rw (eq_refl w.user_id, eq_refl w.idempotency_key)))
