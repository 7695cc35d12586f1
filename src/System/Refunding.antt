-- ===== src/System/Refunding.antt =====
-- The workers keep withdrawals and journal in agreement.
use mathlib.Core.Path.{subst}
use prestohq_assessment.Prelude.{
  String, ◌≡◌, refl, sym, ◌∙◌, ap, inl, inr, false, none, some, or_else, List, [], ◌∷◌, str_eq,
  eq_iff, eq_refl, str_eq-false, find, update, append_row, find-append_row-none, All,
  All-append_row, All-find, Bool-cases, arith,
}
use prestohq_assessment.Prelude.Unique.{Unique, Unique-update}
use prestohq_assessment.Db.{
  State, WalletTransactionEntity, WithdrawalEntity, WithdrawalStatus, pending, processing,
  successful, failed, reversed,
}
use prestohq_assessment.Journal.{Rows, by_key}
use prestohq_assessment.Journal.Keys.{IsRefundKeyed, refund_key_inj}
use prestohq_assessment.Journal.Books.{IsBooked}
use prestohq_assessment.WithdrawalStore.Rows.{
  UpdateWithdrawalProviderData, apply_update, withdrawal_by_id,
}
use prestohq_assessment.WithdrawalStore.Reconciled.{
  Reconciled, Standing, Unpaid, refund_key_of, Reconciled-carried, append-Carries, append-Unpaid,
}
use prestohq_assessment.Payouts.{is_terminal}
use prestohq_assessment.Payouts.Refunds.{reversed_by}
use prestohq_assessment.Payouts.Effects.{
  Effect, idle, progressed, refunded, IsProgress, Refund, refund_row_of,
}
use prestohq_assessment.System.History.{IsKeyed}
use prestohq_assessment.System.Reconciling.{IsReconciled}

-- Of a withdrawal that is not finished nothing is paid back.
running-Unpaid :
    (status : WithdrawalStatus) (rows : Rows) (w : WithdrawalEntity) (id : String)
    → is_terminal status ≡ false
    → Standing status rows w id
    → Unpaid rows id
running-Unpaid pending rows w id running h = h
running-Unpaid processing rows w id running h = h
running-Unpaid successful rows w id running h = h
running-Unpaid failed rows w id running h = h
running-Unpaid reversed rows w id running h = absurd (cc running)

-- An update of the withdrawal `w` in a journal that grows: the others must stay reconciled, and what the
-- withdrawal becomes must be.
module _ (rows more : Rows) (w : WithdrawalEntity) (g : WithdrawalEntity → WithdrawalEntity)
    (others : (q : WithdrawalEntity)
      → str_eq q.id w.id ≡ false
      → Reconciled rows q
      → Reconciled more q)
    (own : Reconciled more (g w)) where
  others_only :
      (ws : List WithdrawalEntity)
      → find (withdrawal_by_id w.id) ws ≡ none
      → All (Reconciled rows) ws
      → All (Reconciled more) ws
  others_only [] absent h = tt
  others_only (q ∷ ws) absent (r, h) =
      (others q (ground (arith, absent)) r, others_only ws (ground (arith, absent)) h)

  updated_each :
      (ws : List WithdrawalEntity)
      → Unique (λ q. q.id) ws
      → find (withdrawal_by_id w.id) ws ≡ some w
      → All (Reconciled rows) ws
      → All (Reconciled more) (update (withdrawal_by_id w.id) g ws)
  updated_each [] u found h = absurd (cc found)
  updated_each (q ∷ ws) (alone, u) found (r, h) = elim (Bool-cases (withdrawal_by_id w.id q)) [
    | inl here ↦
        let same : w ≡ q = ground (arith, found) in
        rw here (
          subst (λ x. Reconciled more (g x)) same own,
          others_only ws
              (subst (λ k. find (withdrawal_by_id k) ws ≡ none) (ap (λ x. x.id) (sym same)) alone)
              h,
        )
    | inr other ↦ rw other (others q other r, updated_each ws u (ground (arith, found)) h)
  ]

module _ (rows : Rows) (w : WithdrawalEntity) (d : UpdateWithdrawalProviderData)
    (r : Reconciled rows w) where
  progressed-Reconciled :
      is_terminal w.status ≡ false → IsProgress d → Reconciled rows (apply_update d w)
  progressed-Reconciled running (kept, status) =
      let unpaid : Unpaid rows r.debit_id =
        running-Unpaid w.status rows w r.debit_id running r.standing in
      record {
        debit_id = r.debit_id;
        named = ap (λ o. or_else o w.debit_transaction_id) kept ∙ r.named;
        original = r.original;
        found = r.found;
        pays = r.pays;
        standing = elim status [
          | inl e ↦
              subst (λ o. Standing (or_else o w.status) rows (apply_update d w) r.debit_id) (sym e)
                unpaid
          | inr e ↦
              subst (λ o. Standing (or_else o w.status) rows (apply_update d w) r.debit_id) (sym e)
                unpaid
        ];
      }

module _ (s : State) (w : WithdrawalEntity) (r : Reconciled s.journal w) where
  abbrev refund : WalletTransactionEntity
  refund = refund_row_of w r.debit_id s

  -- Only the debit's own withdrawal is touched by the refund.
  other_withdrawals :
      (q : WithdrawalEntity)
      → str_eq q.id w.id ≡ false
      → Reconciled s.journal q
      → Reconciled (append_row s.journal refund) q
  other_withdrawals q other p =
      Reconciled-carried s.journal (append_row s.journal refund) q (append-Carries s.journal refund)
        p
        (append-Unpaid s.journal refund p.debit_id (
          str_eq-false (λ same.
            let id : r.debit_id ≡ p.debit_id = refund_key_inj r.debit_id p.debit_id same in
            let row : r.original ≡ p.original = cc (r.found, p.found, id) in
            let owner : some w.id ≡ some q.id =
              sym r.pays.3 ∙ ap (λ o. o.withdrawal_id) row ∙ p.pays.3 in
            absurd (cc (other, (eq_iff q.id w.id).1 (cc owner))))))

  refunded-Reconciled :
      is_terminal w.status ≡ false
      → Reconciled (append_row s.journal refund) (apply_update (reversed_by refund) w)
  refunded-Reconciled running =
      let c = append-Carries s.journal refund in
      let (q, there, pays) = c.row r.debit_id r.original w r.found r.pays in
      record {
        debit_id = r.debit_id;
        named = r.named;
        original = q;
        found = there;
        pays = pays;
        standing = (
          refund,
          find-append_row-none (by_key (refund_key_of r.debit_id)) s.journal refund
                (running-Unpaid w.status s.journal w r.debit_id running r.standing)
              ∙ rw (eq_refl (refund_key_of r.debit_id)),
          refl,
          refl,
        );
      }

-- What a worker does keeps withdrawals and journal in agreement.
pub Effect-IsReconciled :
    {s s' : State}
    → Effect s s'
    → IsKeyed s'.journal
    → IsBooked s'.journal
    → IsReconciled s.journal s.withdrawals
    → IsReconciled s'.journal s'.withdrawals
Effect-IsReconciled (idle (rows, ws)) keyed books r = rw (rows, ws) r
Effect-IsReconciled {s} {s'} (progressed w d found running progress rows ws) keyed books r =
    let own : Reconciled s.journal w =
      All-find (Reconciled s.journal) (withdrawal_by_id w.id) s.withdrawals w found r.each in
    rw (rows, ws)
      (record {
        keyed = r.keyed;
        books = r.books;
        refund_keys = r.refund_keys;
        ids =
            Unique-update (λ q. q.id) (apply_update d) (λ q. refl) (withdrawal_by_id w.id)
              s.withdrawals r.ids;
        each =
            updated_each s.journal s.journal w (apply_update d) (λ q other p. p)
              (progressed-Reconciled s.journal w d own running progress) s.withdrawals r.ids found
              r.each;
      })
Effect-IsReconciled {s} {s'} (refunded w t found running done ws) keyed books r =
    let own : Reconciled s.journal w =
      All-find (Reconciled s.journal) (withdrawal_by_id w.id) s.withdrawals w found r.each in
    let same : or_else w.debit_transaction_id "" ≡ own.debit_id =
      ap (λ o. or_else o "") own.named in
    let unpaid : Unpaid s.journal own.debit_id =
      running-Unpaid w.status s.journal w own.debit_id running own.standing in
    let done' : Refund w own.debit_id t s s' = subst (λ id. Refund w id t s s') same done in
    elim done' [
      | inl (_, key) ↦ absurd (cc (key, unpaid))
      | inr (rows, made, _) ↦
          let row : WalletTransactionEntity = refund_row_of w own.debit_id s in
          rw (rows, ws, made)
            (record {
              keyed = subst IsKeyed rows keyed;
              books = subst IsBooked rows books;
              refund_keys =
                  All-append_row IsRefundKeyed s.journal row r.refund_keys
                    (λ d e. ap some (refund_key_inj own.debit_id d e));
              ids =
                  Unique-update (λ q. q.id) (apply_update (reversed_by row)) (λ q. refl)
                    (withdrawal_by_id w.id) s.withdrawals r.ids;
              each =
                  updated_each s.journal (append_row s.journal row) w
                    (apply_update (reversed_by row)) (other_withdrawals s w own)
                    (refunded-Reconciled s w own running) s.withdrawals r.ids found r.each;
            })
    ]
