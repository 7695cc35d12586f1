-- ===== src/WalletReads/Distinct.antt =====
-- The rows of a wallet's history are distinct when the journal's are: what a cursor of `listByWalletId` needs
-- to find its place.
use prestohq_assessment.Prelude.{
  String, ◌≡◌, refl, inl, inr, false, none, [], ◌∷◌, ◌++◌, str_eq, eq_iff, find, select, arith,
  Bool-cases,
}
use prestohq_assessment.Db.{WalletTransactionEntity}
use prestohq_assessment.Journal.{Rows, by_id}
use prestohq_assessment.Prelude.Unique.{Unique}
use prestohq_assessment.WalletReads.{history, of_wallet, comes_first, insert_newest, newest_first}

-- No two rows have one identifier.
abbrev pub Distinct : Rows → Type 0
Distinct = Unique (λ r. r.id)

absent_mid :
    (k : String) (before behind : Rows) (r : WalletTransactionEntity)
    → find (by_id k) (before ++ r ∷ behind) ≡ none
    → str_eq r.id k ≡ false
absent_mid k [] behind r e = ground arith
absent_mid k (q ∷ before) behind r e = ground (arith, absent_mid k before behind r)

pub Distinct-before :
    (before behind : Rows) (r : WalletTransactionEntity)
    → Distinct (before ++ r ∷ behind)
    → find (by_id r.id) before ≡ none
Distinct-before [] behind r d = refl
Distinct-before (q ∷ before) behind r (new, d) = ground (
  arith,
  absent_mid q.id before behind r new,
  Distinct-before before behind r d,
  eq_iff r.id q.id,
  eq_iff q.id r.id,
)

find-select :
    (k w : String) (rows : Rows)
    → find (by_id k) rows ≡ none
    → find (by_id k) (select (of_wallet w) rows) ≡ none
find-select k w [] e = refl
find-select k w (r ∷ rows) e = ground (arith, find-select k w rows)

Distinct-select : (w : String) (rows : Rows) → Distinct rows → Distinct (select (of_wallet w) rows)
Distinct-select w [] d = tt
Distinct-select w (r ∷ rows) (new, d) = elim (Bool-cases (of_wallet w r)) [
  | inl fits ↦ rw fits (find-select r.id w rows new, Distinct-select w rows d)
  | inr other ↦ rw other (Distinct-select w rows d)
]

find-insert_newest :
    (k : String) (r : WalletTransactionEntity) (rows : Rows)
    → str_eq r.id k ≡ false
    → find (by_id k) rows ≡ none
    → find (by_id k) (insert_newest r rows) ≡ none
unfolding insert_newest
find-insert_newest k r [] other e = rw other
find-insert_newest k r (q ∷ rows) other e = ground (arith, find-insert_newest k r rows other)

Distinct-insert_newest :
    (r : WalletTransactionEntity) (rows : Rows)
    → find (by_id r.id) rows ≡ none
    → Distinct rows
    → Distinct (insert_newest r rows)
unfolding insert_newest
Distinct-insert_newest r [] new d = (refl, tt)
Distinct-insert_newest r (q ∷ rows) new (fresh, d) = elim (Bool-cases (comes_first r q)) [
  | inl first ↦ rw first (new, (fresh, d))
  | inr behind ↦ rw behind (
    find-insert_newest q.id r rows (ground (arith, new, eq_iff r.id q.id, eq_iff q.id r.id)) fresh,
    Distinct-insert_newest r rows (ground (arith, new)) d,
  )
]

find-newest_first :
    (k : String) (rows : Rows)
    → find (by_id k) rows ≡ none
    → find (by_id k) (newest_first rows) ≡ none
unfolding newest_first
find-newest_first k [] e = refl
find-newest_first k (r ∷ rows) e =
    find-insert_newest k r (newest_first rows) (ground (arith, e))
      (find-newest_first k rows (ground (arith, e)))

Distinct-newest_first : (rows : Rows) → Distinct rows → Distinct (newest_first rows)
unfolding newest_first
Distinct-newest_first [] d = tt
Distinct-newest_first (r ∷ rows) (new, d) =
    Distinct-insert_newest r (newest_first rows) (find-newest_first r.id rows new)
      (Distinct-newest_first rows d)

pub Distinct-history : (w : String) (rows : Rows) → Distinct rows → Distinct (history w rows)
unfolding history
Distinct-history w rows d =
    Distinct-newest_first (select (of_wallet w) rows) (Distinct-select w rows d)
