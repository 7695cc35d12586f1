-- ===== src/System/Reconciling.antt =====
-- Requests keep withdrawals and journal in agreement.
use mathlib.Core.Path.{subst}
use prestohq_assessment.Prelude.{
  String, ◌≡◌, refl, sym, inl, inr, none, some, List, [], ◌∷◌, eq_iff, str_eq-false, find,
  find_fits, append_row, All, All-append_row, All-update, All-find, Option-cases,
}
use prestohq_assessment.Prelude.Unique.{Unique}
use prestohq_assessment.Db.{State, WalletTransactionEntity, WithdrawalEntity, tx_successful}
use prestohq_assessment.Exec.{transaction}
use prestohq_assessment.Journal.{Rows, by_id, by_key, new_row, set_status}
use prestohq_assessment.Journal.Keys.{IsOtherKey, IsRefundKeyed}
use prestohq_assessment.Journal.Books.{IsBooked, Backed, BackedBy}
use prestohq_assessment.Journal.Bookkeeping.{IsBooked-append_row, IsBooked-update}
use prestohq_assessment.Ledger.{
  PostCreditPendingInput, CompleteCreditInput, pending_data, pending_body,
  complete_credit_successful,
}
use prestohq_assessment.Ledger.Writes.{Insertable, pending_body-Keeps, complete-Keeps}
use prestohq_assessment.Ledger.Aside.{pending-Beside, complete-Beside}
use prestohq_assessment.Keeping.{transaction-Keeps}
use prestohq_assessment.WithdrawalStore.Reconciled.{
  Reconciled, Carries, Unpaid, refund_key_of, Reconciled-carried, append-Carries, update-Carries,
  append-Unpaid, update-Unpaid,
}
use prestohq_assessment.WithdrawalStore.Transactions.{IsKept}
use prestohq_assessment.WithdrawalStore.Writes.{IsKeptByWrites-IsKept}
use prestohq_assessment.System.History.{IsKeyed, IsKeyed-kept}

pub record IsReconciled (rows : Rows) (ws : List WithdrawalEntity) : Type 0 where
  pub keyed : IsKeyed rows
  pub books : IsBooked rows
  pub refund_keys : All IsRefundKeyed rows
  pub ids : Unique (λ w. w.id) ws
  pub each : All (Reconciled rows) ws

pub IsKeyed-transactions : IsKept IsKeyed
IsKeyed-transactions = IsKeptByWrites-IsKept IsKeyed IsKeyed-kept

pub each_carried :
    (rows more : Rows) (ws : List WithdrawalEntity)
    → Carries rows more
    → ((id : String) → Unpaid rows id → Unpaid more id)
    → All (Reconciled rows) ws
    → All (Reconciled more) ws
each_carried rows more [] c unpaid h = tt
each_carried rows more (w ∷ ws) c unpaid (r, h) =
    (Reconciled-carried rows more w c r (unpaid r.debit_id), each_carried rows more ws c unpaid h)

-- A row under another key than those of refunds
module _ (rows : Rows) (x : WalletTransactionEntity) (other : IsOtherKey x.idempotency_key) where
  pub other-Unpaid : (id : String) → Unpaid rows id → Unpaid (append_row rows x) id
  other-Unpaid id = append-Unpaid rows x id (str_eq-false (other id))

  pub other-refund_keys : All IsRefundKeyed rows → All IsRefundKeyed (append_row rows x)
  other-refund_keys h = All-append_row IsRefundKeyed rows x h (λ id same. absurd (other id same))

  pub other-each :
      (ws : List WithdrawalEntity)
      → All (Reconciled rows) ws
      → All (Reconciled (append_row rows x)) ws
  other-each ws = each_carried rows (append_row rows x) ws (append-Carries rows x) other-Unpaid

-- Nothing refunds a row that is not there yet.
pub new-Unpaid :
    (rows : Rows) (id : String)
    → IsBooked rows
    → All IsRefundKeyed rows
    → find (by_id id) rows ≡ none
    → Unpaid rows id
new-Unpaid rows id b keys new = elim (Option-cases (find (by_key (refund_key_of id)) rows)) [
  | inl absent ↦ absent
  | inr (t, found) ↦
      let key : t.idempotency_key ≡ refund_key_of id =
        (eq_iff t.idempotency_key (refund_key_of id)).0
          (find_fits (by_key (refund_key_of id)) rows t found) in
      let names : t.reverses_transaction_id ≡ some id =
        All-find IsRefundKeyed (by_key (refund_key_of id)) rows t found keys id key in
      let backed : BackedBy rows t id = subst (Backed rows t) names (
        All-find (λ r. Backed rows r r.reverses_transaction_id) (by_key (refund_key_of id)) rows t
          found b.backed) in
      absurd (cc (backed.1, new))
]

pending-Insertable :
    (i : PostCreditPendingInput) (ws : List WithdrawalEntity)
    → IsOtherKey i.idempotency_key
    → Insertable (λ rows. IsReconciled rows ws) (pending_data i)
pending-Insertable i ws other s new_id new_key small r = record {
  keyed = IsKeyed-kept.inserted (pending_data i) s new_id new_key small r.keyed;
  books = IsBooked-append_row s.journal (new_row (pending_data i) s) refl refl tt r.books;
  refund_keys = other-refund_keys s.journal (new_row (pending_data i) s) other r.refund_keys;
  ids = r.ids;
  each = other-each s.journal (new_row (pending_data i) s) other ws r.each;
}

pub pending-IsReconciled :
    (i : PostCreditPendingInput)
    → IsOtherKey i.idempotency_key
    → (s : State) → IsReconciled s.journal s.withdrawals
    → IsReconciled
        (transaction (pending_body i) s).1.journal
        (transaction (pending_body i) s).1.withdrawals
pending-IsReconciled i other s r =
    subst (IsReconciled (transaction (pending_body i) s).1.journal)
      (sym (pending-Beside (λ ws. ws ≡ s.withdrawals) i s refl))
      (transaction-Keeps (λ t. IsReconciled t.journal s.withdrawals) (pending_body i)
        (pending_body-Keeps (λ rows. IsReconciled rows s.withdrawals) i
          (pending-Insertable i s.withdrawals other))
        s r)

pub complete-IsReconciled :
    (i : CompleteCreditInput) (s : State)
    → IsReconciled s.journal s.withdrawals
    → IsReconciled
        (complete_credit_successful i s).1.journal
        (complete_credit_successful i s).1.withdrawals
complete-IsReconciled i s r =
    subst (IsReconciled (complete_credit_successful i s).1.journal)
      (sym (complete-Beside (λ ws. ws ≡ s.withdrawals) i s refl))
      (complete-Keeps (λ rows. IsReconciled rows s.withdrawals) i
        (λ t rows found waits h. record {
          keyed = IsKeyed-kept.completed t rows found waits h.keyed;
          books = IsBooked-update t.id rows t found waits h.books;
          refund_keys =
              All-update IsRefundKeyed (by_id t.id) (set_status tx_successful) rows (λ x k. k)
                h.refund_keys;
          ids = h.ids;
          each =
              each_carried rows _ s.withdrawals (update-Carries rows t.id) (update-Unpaid rows t.id)
                h.each;
        })
        s r)
