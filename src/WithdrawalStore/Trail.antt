-- ===== src/WithdrawalStore/Trail.antt =====
-- What may become of the rows of withdrawals: an unfinished one moves on, a finished one stays.
use mathlib.Core.Path.{subst}
use prestohq_assessment.Prelude.{
  ◌≡◌, refl, ap, ◌⊎◌, inl, inr, false, none, some, List, find, update, append_row,
}
use prestohq_assessment.Prelude.Growth.{Grows, Grows-refl, Grows-append_row, Grows-update}
use prestohq_assessment.Db.{
  WithdrawalEntity, WithdrawalStatus, pending, processing, successful, failed, reversed,
}
use prestohq_assessment.WithdrawalStore.Rows.{
  UpdateWithdrawalProviderData, apply_update, withdrawal_by_id,
}
use prestohq_assessment.Payouts.{is_terminal}

-- What was asked for: the row without the columns that tell how far it is.
abbrev pub order_of : WithdrawalEntity → WithdrawalEntity
order_of w = record w {
  status = pending;
  provider_transfer_id = none;
  debit_transaction_id = none;
  credit_transaction_id = none;
  reversal_transaction_id = none;
}

-- A withdrawal that is not yet paid, failed or refunded
abbrev pub Unfinished : WithdrawalStatus → Type 0
Unfinished status = (status ≡ pending) ⊎ (status ≡ processing)

not_terminal-Unfinished :
    (status : WithdrawalStatus) → is_terminal status ≡ false → Unfinished status
not_terminal-Unfinished pending e = inl refl
not_terminal-Unfinished processing e = inr refl
not_terminal-Unfinished successful e = cc
not_terminal-Unfinished failed e = cc
not_terminal-Unfinished reversed e = cc

-- A row stays as it is, or it was not finished and what was asked for stays.
abbrev pub Advances : WithdrawalEntity → WithdrawalEntity → Type 0
Advances w q = (q ≡ w) ⊎ (Unfinished w.status × (order_of q ≡ order_of w))

abbrev pub Evolves : List WithdrawalEntity → List WithdrawalEntity → Type 0
Evolves = Grows Advances

advanced_again :
    (d : UpdateWithdrawalProviderData) (w q : WithdrawalEntity)
    → is_terminal q.status ≡ false
    → Advances w q
    → Advances w (apply_update d q)
advanced_again d w q running (inl same) = inr (
  subst (λ x. Unfinished x.status) same (not_terminal-Unfinished q.status running),
  ap order_of same,
)
advanced_again d w q running (inr (first, kept)) = inr (first, kept)

pub Evolves-refl : (rows : List WithdrawalEntity) → Evolves rows rows
Evolves-refl = Grows-refl Advances (λ w. inl refl)

pub Evolves-append_row :
    (old rows : List WithdrawalEntity) (w : WithdrawalEntity)
    → Evolves old rows
    → Evolves old (append_row rows w)
Evolves-append_row = Grows-append_row Advances

pub Evolves-update :
    (d : UpdateWithdrawalProviderData) (old rows : List WithdrawalEntity) (w : WithdrawalEntity)
    → find (withdrawal_by_id w.id) rows ≡ some w
    → is_terminal w.status ≡ false
    → Evolves old rows
    → Evolves old (update (withdrawal_by_id w.id) (apply_update d) rows)
Evolves-update d old rows w found running =
    Grows-update Advances (withdrawal_by_id w.id) (apply_update d) old rows w found
      (λ r s. advanced_again d r w running s)
