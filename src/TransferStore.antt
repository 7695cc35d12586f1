-- ===== src/TransferStore.antt =====
-- src/database/prisma/prisma-transfer.repository.ts. The table has unique `id`, `flutterwaveTxRef` and
-- `(userId, idempotencyKey)`, and an INT4 amount (prisma/schema/transfer.prisma).
use prestohq_assessment.Prelude.{
  ℕ, ◌+◌, String, Bool, ◌&&◌, Option, none, some, ltb, if◌then◌else◌, is_some, or_else, str_eq,
  find, update, append_row,
}
use prestohq_assessment.Errors.{Error, unique_violation, out_of_range, record_missing}
use prestohq_assessment.Db.{State, TransferEntity, TransferStatus, transfer_initiated}
use prestohq_assessment.Exec.{Action, ok, err, gets}
use prestohq_assessment.Journal.{int4_max}

pub record CreateTransferData : Type 0 where
  pub user_id : String
  pub wallet_id : String
  pub amount : ℕ
  pub currency : Option String
  pub flutterwave_tx_ref : String
  pub idempotency_key : String
  pub request_body_hash : String
  pub status : Option TransferStatus

-- `none` leaves a column as it is.
pub record UpdateTransferData : Type 0 where
  pub status : Option TransferStatus
  pub flutterwave_id : Option (Option String)
  pub checkout_url : Option (Option String)

abbrev pub transfer_by_id : String → TransferEntity → Bool
transfer_by_id id t = str_eq t.id id

abbrev pub transfer_by_user_and_key : String → String → TransferEntity → Bool
transfer_by_user_and_key user_id key t = str_eq t.user_id user_id && str_eq t.idempotency_key key

abbrev pub transfer_by_tx_ref : String → TransferEntity → Bool
transfer_by_tx_ref tx_ref t = str_eq t.flutterwave_tx_ref tx_ref

abbrev pub find_transfer : String → Action (Option TransferEntity)
find_transfer id = gets (λ s. find (transfer_by_id id) s.transfers)

abbrev pub find_transfer_by_user_and_key : String → String → Action (Option TransferEntity)
find_transfer_by_user_and_key user_id key =
    gets (λ s. find (transfer_by_user_and_key user_id key) s.transfers)

abbrev pub find_by_flutterwave_tx_ref : String → Action (Option TransferEntity)
find_by_flutterwave_tx_ref tx_ref = gets (λ s. find (transfer_by_tx_ref tx_ref) s.transfers)

abbrev pub new_transfer : CreateTransferData → State → TransferEntity
new_transfer d s = record {
  id = s.cuid s.next_id;
  user_id = d.user_id;
  wallet_id = d.wallet_id;
  amount = d.amount;
  currency = or_else d.currency "NGN";
  status = or_else d.status transfer_initiated;
  flutterwave_tx_ref = d.flutterwave_tx_ref;
  flutterwave_id = none;
  checkout_url = none;
  idempotency_key = d.idempotency_key;
  request_body_hash = d.request_body_hash;
  created_at = s.now;
}

abbrev pub transfer_refusal : CreateTransferData → State → Option Error
transfer_refusal d s =
    if ltb int4_max d.amount
    then some out_of_range
    else if is_some (find (transfer_by_user_and_key d.user_id d.idempotency_key) s.transfers)
    then some unique_violation
    else if is_some (find (transfer_by_tx_ref d.flutterwave_tx_ref) s.transfers)
    then some unique_violation
    else if is_some (find (transfer_by_id (s.cuid s.next_id)) s.transfers)
    then some unique_violation
    else none

-- `create`
unfoldable pub create_transfer : CreateTransferData → Action TransferEntity
create_transfer d s = elim (transfer_refusal d s) [
  | none ↦ (
    ok (new_transfer d s),
    record s { transfers = append_row s.transfers (new_transfer d s); next_id = s.next_id + 1 },
  )
  | some e ↦ (err e, s)
]

abbrev pub apply_transfer_update : UpdateTransferData → TransferEntity → TransferEntity
apply_transfer_update d t = record t {
  status = or_else d.status t.status;
  flutterwave_id = or_else d.flutterwave_id t.flutterwave_id;
  checkout_url = or_else d.checkout_url t.checkout_url;
}

-- `update`
unfoldable pub update_transfer : String → UpdateTransferData → Action TransferEntity
update_transfer id d s = elim (find (transfer_by_id id) s.transfers) [
  | none ↦ (err record_missing, s)
  | some t ↦ (
    ok (apply_transfer_update d t),
    record s { transfers = update (transfer_by_id id) (apply_transfer_update d) s.transfers },
  )
]
