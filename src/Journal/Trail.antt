-- ===== src/Journal/Trail.antt =====
-- The journal as an audit trail: what may become of the rows that are there.
use mathlib.Core.Path.{subst}
use prestohq_assessment.Prelude.{
  String, str_eq, ◌≡◌, refl, ap, ◌⊎◌, inl, inr, Bool, some, find, update, append_row,
}
use prestohq_assessment.Prelude.Growth.{
  Grows, Grows-refl, Grows-append_row, Grows-update, Grows-find,
}
use prestohq_assessment.Db.{WalletTransactionEntity, tx_pending, tx_successful}
use prestohq_assessment.Journal.{Rows, by_id, set_status}

-- A row stays as it is, or a pending row is completed.
abbrev pub Settles : WalletTransactionEntity → WalletTransactionEntity → Type 0
Settles r q = (q ≡ r) ⊎ ((r.status ≡ tx_pending) × (q ≡ set_status tx_successful r))

-- Each row keeps its place; new rows come behind.
abbrev pub Extends : Rows → Rows → Type 0
Extends = Grows Settles

pub Extends-refl : (rows : Rows) → Extends rows rows
Extends-refl = Grows-refl Settles (λ r. inl refl)

pub Extends-append_row :
    (old rows : Rows) (x : WalletTransactionEntity)
    → Extends old rows
    → Extends old (append_row rows x)
Extends-append_row = Grows-append_row Settles

settled_again :
    (r q : WalletTransactionEntity)
    → Settles r q
    → q.status ≡ tx_pending
    → Settles r (set_status tx_successful q)
settled_again r q (inl same) waits =
    inr (subst (λ x. x.status ≡ tx_pending) same waits, ap (set_status tx_successful) same)
settled_again r q (inr (_, done)) waits = absurd (cc (waits, ap (λ x. x.status) done))

pub Extends-update :
    (p : WalletTransactionEntity → Bool) (old rows : Rows) (t : WalletTransactionEntity)
    → find p rows ≡ some t
    → t.status ≡ tx_pending
    → Extends old rows
    → Extends old (update p (set_status tx_successful) rows)
Extends-update p old rows t found waits =
    Grows-update Settles p (set_status tx_successful) old rows t found
      (λ r s. settled_again r t s waits)

pub settled-keeps :
    (r q : WalletTransactionEntity)
    → Settles r q
    → (q.id ≡ r.id) × (q.type ≡ r.type) × (q.wallet_id ≡ r.wallet_id) × (q.amount ≡ r.amount)
settled-keeps r q (inl same) = (
  ap (λ x. x.id) same,
  ap (λ x. x.type) same,
  ap (λ x. x.wallet_id) same,
  ap (λ x. x.amount) same,
)
settled-keeps r q (inr (_, same)) = (
  ap (λ x. x.id) same,
  ap (λ x. x.type) same,
  ap (λ x. x.wallet_id) same,
  ap (λ x. x.amount) same,
)

-- A row that is there stays, with the same columns but for its status.
pub Extends-find :
    (id : String) (old rows : Rows) (t : WalletTransactionEntity)
    → Extends old rows
    → find (by_id id) old ≡ some t
    → (q : WalletTransactionEntity) × (find (by_id id) rows ≡ some q) × Settles t q
Extends-find id =
    Grows-find Settles (by_id id) (λ r q s. ap (λ k. str_eq k id) (settled-keeps r q s).0)
