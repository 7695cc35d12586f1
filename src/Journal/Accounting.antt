-- ===== src/Journal/Accounting.antt =====
-- What books in order say, and the writes that keep them in order.
use Prim.Native.String.{◌++◌}
use prestohq_assessment.Prelude.{
  ◌+◌, ◌≤◌, String, ◌≡◌, ap, ◌∙◌, inl, inr, true, Option, none, some, [], ◌∷◌, eq_iff, find, sum_by,
  Bool-cases, arith,
}
use prestohq_assessment.Prelude.Int.{sub_ℕ}
use prestohq_assessment.Db.{
  WalletTransactionEntity, WalletTxPurpose, flutterwave_funding, p2p, bank_payout, reversal,
}
use prestohq_assessment.Journal.{Rows, by_id, by_key}
use prestohq_assessment.Prelude.Unique.{Unique}
use prestohq_assessment.Journal.Books.{
  credit_in, debit_in, total, deposits, payouts, refunds, received, sent, repays, repaid,
  has_refund_key, fits_as, misfit, Backed, AllBacked, IsBooked, credit_parts, debit_parts,
}

credits_accounted :
    (rows : Rows)
    → sum_by misfit rows ≡ 0
    → sum_by credit_in rows ≡ deposits rows + refunds rows + received rows
credits_accounted [] fit = omega arith
credits_accounted (r ∷ rows) fit = ground (arith, credits_accounted rows, credit_parts r.purpose r)

debits_accounted :
    (rows : Rows) → sum_by misfit rows ≡ 0 → sum_by debit_in rows ≡ payouts rows + sent rows
debits_accounted [] fit = omega arith
debits_accounted (r ∷ rows) fit = ground (arith, debits_accounted rows, debit_parts r.purpose r)

-- Books in order account for all the money: it came by deposits and refunds, and went by payouts.
pub total_accounted :
    (rows : Rows) → IsBooked rows → total rows ≡ sub_ℕ (deposits rows + refunds rows) (payouts rows)
unfolding total
total_accounted rows b =
    ground (arith, credits_accounted rows b.fit, debits_accounted rows b.fit, b.even)

-- A refund of `id` has the key of that refund.
key_of_refund :
    (o : Option String) (key id : String)
    → has_refund_key o key ≡ true
    → repays o id ≡ true
    → key ≡ "reversal:" ++ id
key_of_refund none key id fits names = cc
key_of_refund (some d) key id fits names =
    (eq_iff key ("reversal:" ++ d)).0 fits ∙ ap (λ t. "reversal:" ++ t) ((eq_iff d id).0 names)

refund_key :
    (p : WalletTxPurpose) (r : WalletTransactionEntity) (id : String)
    → fits_as p r ≡ true
    → repays r.reverses_transaction_id id ≡ true
    → r.idempotency_key ≡ "reversal:" ++ id
refund_key flutterwave_funding r id fits names = absurd (ground arith)
refund_key p2p r id fits names = absurd (ground arith)
refund_key bank_payout r id fits names = absurd (ground arith)
refund_key reversal r id fits names =
    key_of_refund r.reverses_transaction_id r.idempotency_key id (ground arith) names

module _ (id : String) (o : WalletTransactionEntity) where
  pub none-repaid :
      (rows : Rows)
      → sum_by misfit rows ≡ 0
      → find (by_key ("reversal:" ++ id)) rows ≡ none
      → sum_by (repaid id) rows ≡ 0
  none-repaid [] fit absent = omega arith
  none-repaid (r ∷ rows) fit absent = ground (
    arith,
    refund_key r.purpose r id,
    eq_iff r.idempotency_key ("reversal:" ++ id),
    none-repaid rows,
  )

  repaid_share :
      (all : Rows) (r : WalletTransactionEntity) (d : Option String)
      → find (by_id id) all ≡ some o
      → Backed all r d
      → repays d id ≡ true
      → r.amount ≤ o.amount
  repaid_share all r none found backed names = cc
  repaid_share all r (some d) found (debit, there, _, _, same) names =
      let e : d ≡ id = (eq_iff d id).0 names in
      let here : find (by_id id) all ≡ some debit = rw e at there in ground (arith, here)

  -- Of the rows that name a debit as the one they pay back, all together pay at most its amount.
  pub repaid_in :
      (all rows : Rows)
      → find (by_id id) all ≡ some o
      → Unique (λ r. r.idempotency_key) rows
      → sum_by misfit rows ≡ 0
      → AllBacked all rows
      → sum_by (repaid id) rows ≤ o.amount
  repaid_in all [] found keys fit backed = omega arith
  repaid_in all (r ∷ rows) found (first, keys) fit (backs, backed) =
      elim (Bool-cases (repays r.reverses_transaction_id id)) [
        | inr other ↦ rw other (ground (arith, repaid_in all rows found keys (ground arith) backed))
        | inl names ↦
            let key : r.idempotency_key ≡ "reversal:" ++ id =
              refund_key r.purpose r id (ground arith) names in
            let rest : sum_by (repaid id) rows ≡ 0 =
              none-repaid rows (ground arith) (rw key at first) in
            rw (names, rest)
              (ground (arith, repaid_share all r r.reverses_transaction_id found backs names))
      ]
