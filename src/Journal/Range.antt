-- ===== src/Journal/Range.antt =====
-- Amounts fit the INT4 column, so that the sums of balances stay within the range in which the numbers of
-- the source are exact.
use prestohq_assessment.Prelude.{
  ℕ, ◌*◌, ◌≤◌, [], ◌∷◌, String, sum_by, update, append_row, arith, Bool, Bool-cases, inl, inr,
}
use prestohq_assessment.Prelude.Lists.{length}
use prestohq_assessment.Db.{WalletTransactionEntity, tx_successful}
use prestohq_assessment.Journal.{Rows, int4_max, credits, debits, credit_of, debit_of, set_status}

abbrev pub IsInt4 : Rows → Type 0
IsInt4 [] = Unit
IsInt4 (r ∷ rows) = (r.amount ≤ int4_max) × IsInt4 rows

pub IsInt4-append_row :
    (rows : Rows) (r : WalletTransactionEntity)
    → r.amount ≤ int4_max
    → IsInt4 rows
    → IsInt4 (append_row rows r)
IsInt4-append_row [] r fits h = (fits, tt)
IsInt4-append_row (q ∷ rows) r fits (first, h) = (first, IsInt4-append_row rows r fits h)

pub IsInt4-last :
    (rows : Rows) (r : WalletTransactionEntity) → IsInt4 (append_row rows r) → r.amount ≤ int4_max
IsInt4-last [] r (fits, _) = fits
IsInt4-last (q ∷ rows) r (_, h) = IsInt4-last rows r h

pub IsInt4-update :
    (p : WalletTransactionEntity → Bool) (rows : Rows)
    → IsInt4 rows
    → IsInt4 (update p (set_status tx_successful) rows)
IsInt4-update p [] h = tt
IsInt4-update p (r ∷ rows) (first, h) = elim (Bool-cases (p r)) [
  | inl fits ↦ rw fits (first, h)
  | inr other ↦ rw other (first, IsInt4-update p rows h)
]

sum_by-le :
    (f : WalletTransactionEntity → ℕ) (rows : Rows)
    → ((r : WalletTransactionEntity) → f r ≤ r.amount)
    → IsInt4 rows
    → sum_by f rows ≤ length rows * int4_max
sum_by-le f [] small h = omega arith
sum_by-le f (r ∷ rows) small (first, h) = omega (arith, small r, first, sum_by-le f rows small h)

-- The sums of a journal of at most four million rows are exact as numbers with 53 binary digits.
pub sums_exact :
    (w : String) (rows : Rows)
    → IsInt4 rows
    → length rows ≤ 4194304
    → (credits w rows ≤ 9007199254740991) × (debits w rows ≤ 9007199254740991)
unfolding credits debits
sums_exact w rows h few = (
  omega (arith, sum_by-le (credit_of w) rows (λ r. ground arith) h, few),
  omega (arith, sum_by-le (debit_of w) rows (λ r. ground arith) h, few),
)
