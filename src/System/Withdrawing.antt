-- ===== src/System/Withdrawing.antt =====
-- The transactions of withdrawals keep withdrawals and journal in agreement.
use mathlib.Core.Path.{subst}
use prestohq_assessment.Prelude.{
  ◌≡◌, refl, ◌∙◌, inl, inr, none, some, eq_refl, str_eq-false, find, append_row, update-append_row,
  find-append_row-none, find-append_row-some, All-append_row,
}
use prestohq_assessment.Prelude.Unique.{Unique-append_row, Unique-last}
use prestohq_assessment.Db.{State, WalletTransactionEntity, WithdrawalEntity}
use prestohq_assessment.Exec.{transaction}
use prestohq_assessment.Journal.{Rows, by_id}
use prestohq_assessment.Journal.Keys.{p2p_debit_key, p2p_credit_key, bank_debit_key}
use prestohq_assessment.Journal.Books.{IsBooked}
use prestohq_assessment.WithdrawalStore.{
  ExecuteP2pWithdrawalData, ExecuteBankWithdrawalData, p2p_row, p2p_body, bank_row, bank_body,
}
use prestohq_assessment.WithdrawalStore.Rows.{apply_update, withdrawal_by_id}
use prestohq_assessment.WithdrawalStore.Reconciled.{Reconciled, append-Unpaid}
use prestohq_assessment.WithdrawalStore.P2p.{p2p_transaction-cases}
use prestohq_assessment.WithdrawalStore.P2p
use prestohq_assessment.WithdrawalStore.Bank.{bank_transaction-cases}
use prestohq_assessment.WithdrawalStore.Bank
use prestohq_assessment.WithdrawalStore.Transactions.{IsKeptByRequests}
use prestohq_assessment.System.History.{IsKeyed}
use prestohq_assessment.System.Books.{IsBooked-kept}
use prestohq_assessment.System.Reconciling.{
  IsReconciled, IsKeyed-transactions, other-refund_keys, other-each, new-Unpaid,
  pending-IsReconciled, complete-IsReconciled,
}

-- The row that was appended last is found by its identifier.
last-found :
    (rows : Rows) (x : WalletTransactionEntity)
    → find (by_id x.id) rows ≡ none
    → find (by_id x.id) (append_row rows x) ≡ some x
last-found rows x new = find-append_row-none (by_id x.id) rows x new ∙ rw (eq_refl x.id)

module _ (d : ExecuteBankWithdrawalData) (s : State) (r : IsReconciled s.journal s.withdrawals)
    (keyed : IsKeyed (append_row s.journal (Bank.paid_row d s)))
    (books : IsBooked (append_row s.journal (Bank.paid_row d s)))
    (new : find (withdrawal_by_id (bank_row d s).id) s.withdrawals ≡ none) where
  abbrev accepted : WithdrawalEntity
  accepted = apply_update (Bank.links d s) (bank_row d s)

  fresh_debit : find (by_id (Bank.paid_row d s).id) s.journal ≡ none
  fresh_debit = (Unique-last (λ t. t.id) (Bank.paid_row d s) s.journal keyed.ids).0

  accepted-Reconciled : Reconciled (append_row s.journal (Bank.paid_row d s)) accepted
  accepted-Reconciled = record {
    debit_id = (Bank.paid_row d s).id;
    named = refl;
    original = Bank.paid_row d s;
    found = last-found s.journal (Bank.paid_row d s) fresh_debit;
    pays = (refl, refl, refl, refl);
    standing =
        append-Unpaid s.journal (Bank.paid_row d s) (Bank.paid_row d s).id
          (str_eq-false (bank_debit_key _ (Bank.paid_row d s).id))
          (new-Unpaid s.journal (Bank.paid_row d s).id r.books r.refund_keys fresh_debit);
  }

  accepted-IsReconciled :
      IsReconciled (append_row s.journal (Bank.paid_row d s)) (append_row s.withdrawals accepted)
  accepted-IsReconciled = record {
    keyed = keyed;
    books = books;
    refund_keys = other-refund_keys s.journal (Bank.paid_row d s) (bank_debit_key _) r.refund_keys;
    ids = Unique-append_row (λ w. w.id) accepted s.withdrawals new r.ids;
    each =
        All-append_row (Reconciled (append_row s.journal (Bank.paid_row d s))) s.withdrawals
          accepted
          (other-each s.journal (Bank.paid_row d s) (bank_debit_key _) s.withdrawals r.each)
          accepted-Reconciled;
  }

bank-IsReconciled :
    (d : ExecuteBankWithdrawalData) (s : State)
    → IsReconciled s.journal s.withdrawals
    → IsReconciled
        (transaction (bank_body d) s).1.journal
        (transaction (bank_body d) s).1.withdrawals
bank-IsReconciled d s r = elim (bank_transaction-cases d s) [
  | inl (e, refused) ↦ rw refused r
  | inr (inl (w, old, _)) ↦ rw old r
  | inr (inr (done, _, fresh)) ↦
      rw
        (
          done,
          update-append_row (withdrawal_by_id (bank_row d s).id) (apply_update (Bank.links d s))
              s.withdrawals (bank_row d s) fresh.new_id (eq_refl (bank_row d s).id),
        )
        (accepted-IsReconciled d s r
          (subst (λ x. IsKeyed x.1.journal) done (IsKeyed-transactions.bank d s r.keyed))
          (subst (λ x. IsBooked x.1.journal) done (IsBooked-kept.bank d s r.books)) fresh.new_id)
]

module _ (d : ExecuteP2pWithdrawalData) (s : State) (r : IsReconciled s.journal s.withdrawals) where
  abbrev debited : Rows
  debited = append_row s.journal (P2p.paid_row d s)

  abbrev moved : Rows
  moved = append_row debited (P2p.got_row d s)

  abbrev sent : WithdrawalEntity
  sent = apply_update (P2p.links d s) (p2p_row d s)

  module _ (keyed : IsKeyed moved) (books : IsBooked moved)
      (new : find (withdrawal_by_id (p2p_row d s).id) s.withdrawals ≡ none) where
    fresh_payment : find (by_id (P2p.paid_row d s).id) s.journal ≡ none
    fresh_payment =
        (Unique-last (λ t. t.id) (P2p.paid_row d s) s.journal
          (Unique-last (λ t. t.id) (P2p.got_row d s) debited keyed.ids).1).0

    sent-Reconciled : Reconciled moved sent
    sent-Reconciled = record {
      debit_id = (P2p.paid_row d s).id;
      named = refl;
      original = P2p.paid_row d s;
      found =
          find-append_row-some (by_id (P2p.paid_row d s).id) debited (P2p.got_row d s)
            (P2p.paid_row d s) (last-found s.journal (P2p.paid_row d s) fresh_payment);
      pays = (refl, refl, refl, refl);
      standing =
          append-Unpaid debited (P2p.got_row d s) (P2p.paid_row d s).id
            (str_eq-false (p2p_credit_key _ (P2p.paid_row d s).id))
            (append-Unpaid s.journal (P2p.paid_row d s) (P2p.paid_row d s).id
              (str_eq-false (p2p_debit_key _ (P2p.paid_row d s).id))
              (new-Unpaid s.journal (P2p.paid_row d s).id r.books r.refund_keys fresh_payment));
    }

    sent-IsReconciled : IsReconciled moved (append_row s.withdrawals sent)
    sent-IsReconciled = record {
      keyed = keyed;
      books = books;
      refund_keys =
          other-refund_keys debited (P2p.got_row d s) (p2p_credit_key _)
            (other-refund_keys s.journal (P2p.paid_row d s) (p2p_debit_key _) r.refund_keys);
      ids = Unique-append_row (λ w. w.id) sent s.withdrawals new r.ids;
      each =
          All-append_row (Reconciled moved) s.withdrawals sent
            (other-each debited (P2p.got_row d s) (p2p_credit_key _) s.withdrawals
              (other-each s.journal (P2p.paid_row d s) (p2p_debit_key _) s.withdrawals r.each))
            sent-Reconciled;
    }

p2p-IsReconciled :
    (d : ExecuteP2pWithdrawalData) (s : State)
    → IsReconciled s.journal s.withdrawals
    → IsReconciled (transaction (p2p_body d) s).1.journal (transaction (p2p_body d) s).1.withdrawals
p2p-IsReconciled d s r = elim (p2p_transaction-cases d s) [
  | inl (e, refused) ↦ rw refused r
  | inr (inl (w, old, _)) ↦ rw old r
  | inr (inr (done, _, fresh)) ↦
      rw
        (
          done,
          update-append_row (withdrawal_by_id (p2p_row d s).id) (apply_update (P2p.links d s))
              s.withdrawals (p2p_row d s) fresh.new_id (eq_refl (p2p_row d s).id),
        )
        (sent-IsReconciled d s r
          (subst (λ x. IsKeyed x.1.journal) done (IsKeyed-transactions.p2p d s r.keyed))
          (subst (λ x. IsBooked x.1.journal) done (IsBooked-kept.p2p d s r.books)) fresh.new_id)
]

pub requests-IsReconciled : IsKeptByRequests IsReconciled
requests-IsReconciled = record {
  pending = pending-IsReconciled;
  complete = complete-IsReconciled;
  p2p = p2p-IsReconciled;
  bank = bank-IsReconciled;
}
