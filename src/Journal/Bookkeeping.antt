-- ===== src/Journal/Bookkeeping.antt =====
-- The writes that keep the books in order: rows that are appended, and the completion of a pending row.
use prestohq_assessment.Prelude.{
  ◌+◌, ◌≤◌, String, ◌≡◌, refl, inl, inr, true, Option, none, some, [], ◌∷◌, find, update,
  append_row, sum_by-append_row, sum_by-update, find-append_row-some, find-update-some,
  find-le-sum_by, Bool-cases, arith,
}
use prestohq_assessment.Db.{
  WalletTransactionEntity, WalletTxPurpose, flutterwave_funding, p2p, bank_payout, reversal,
  tx_pending, tx_successful,
}
use prestohq_assessment.Journal.{Rows, by_id, set_status}
use prestohq_assessment.Journal.Books.{
  received_as, sent_as, fits_as, misfit, BackedBy, Backed, AllBacked, IsBooked,
}

-- A row that is backed in one journal is so, in its own form or another, in a journal that keeps each
-- debit.
Backed-grows :
    (rows more : Rows) (r r' : WalletTransactionEntity) (d : Option String)
    → ((id : String) → BackedBy rows r id → BackedBy more r' id)
    → Backed rows r d
    → Backed more r' d
Backed-grows rows more r r' none keep b = b
Backed-grows rows more r r' (some id) keep b = keep id b

AllBacked-grows :
    (rows more rest : Rows)
    → ((r : WalletTransactionEntity) (id : String) → BackedBy rows r id → BackedBy more r id)
    → AllBacked rows rest
    → AllBacked more rest
AllBacked-grows rows more [] keep b = tt
AllBacked-grows rows more (r ∷ rest) keep (first, b) = (
  Backed-grows rows more r r r.reverses_transaction_id (keep r) first,
  AllBacked-grows rows more rest keep b,
)

module _ (rows : Rows) (x : WalletTransactionEntity) where
  kept_by_append :
      (r : WalletTransactionEntity) (id : String)
      → BackedBy rows r id
      → BackedBy (append_row rows x) r id
  kept_by_append r id (o, found, is_debit, wallet, amount) =
      (o, find-append_row-some (by_id id) rows x o found, is_debit, wallet, amount)

  AllBacked-append_row :
      (rest : Rows)
      → AllBacked rows rest
      → Backed rows x x.reverses_transaction_id
      → AllBacked (append_row rows x) (append_row rest x)
  AllBacked-append_row [] b new = (
    Backed-grows rows (append_row rows x) x x x.reverses_transaction_id (kept_by_append x) new,
    tt,
  )
  AllBacked-append_row (r ∷ rest) (first, b) new = (
    Backed-grows rows (append_row rows x) r r r.reverses_transaction_id (kept_by_append r) first,
    AllBacked-append_row rest b new,
  )

  -- A row that fits its purpose, moves nothing between wallets and is backed if it is a refund.
  pub IsBooked-append_row :
      fits_as x.purpose x ≡ true
      → received_as x.purpose x ≡ sent_as x.purpose x
      → Backed rows x x.reverses_transaction_id
      → IsBooked rows
      → IsBooked (append_row rows x)
  IsBooked-append_row fits moves new b = record {
    fit = ground (arith, sum_by-append_row misfit rows x, b.fit);
    even = omega (
      arith,
      sum_by-append_row (λ (r : WalletTransactionEntity). received_as r.purpose r) rows x,
      sum_by-append_row (λ (r : WalletTransactionEntity). sent_as r.purpose r) rows x,
      b.even,
    );
    backed = AllBacked-append_row rows b.backed new;
  }

module _ (rows : Rows) (x y : WalletTransactionEntity) where
  -- The two rows of a payment between wallets, which refund nothing.
  pub IsBooked-append_rows :
      fits_as x.purpose x ≡ true
      → fits_as y.purpose y ≡ true
      → received_as x.purpose x + received_as y.purpose y
        ≡ sent_as x.purpose x + sent_as y.purpose y
      → x.reverses_transaction_id ≡ none
      → y.reverses_transaction_id ≡ none
      → IsBooked rows
      → IsBooked (append_row (append_row rows x) y)
  IsBooked-append_rows fits_x fits_y moves no_x no_y b = record {
    fit = ground (
      arith,
      sum_by-append_row misfit rows x,
      sum_by-append_row misfit (append_row rows x) y,
      b.fit,
    );
    even = omega (
      arith,
      sum_by-append_row (λ (r : WalletTransactionEntity). received_as r.purpose r) rows x,
      sum_by-append_row (λ (r : WalletTransactionEntity). sent_as r.purpose r) rows x,
      sum_by-append_row (λ (r : WalletTransactionEntity). received_as r.purpose r)
          (append_row rows x) y,
      sum_by-append_row (λ (r : WalletTransactionEntity). sent_as r.purpose r) (append_row rows x)
          y,
      b.even,
    );
    backed =
        AllBacked-append_row (append_row rows x) y (append_row rows x)
          (AllBacked-append_row rows x rows b.backed (rw no_x tt)) (rw no_y tt);
  }

-- What a pending row is: it fits as well when it is completed, and moves nothing between wallets.
completed_fits :
    (p : WalletTxPurpose) (r : WalletTransactionEntity)
    → fits_as p r ≡ true
    → r.status ≡ tx_pending
    → (fits_as p (set_status tx_successful r) ≡ true)
      × (received_as p r ≡ 0)
      × (sent_as p r ≡ 0)
      × (received_as p (set_status tx_successful r) ≡ 0)
      × (sent_as p (set_status tx_successful r) ≡ 0)
completed_fits flutterwave_funding r fits waits = (ground arith, refl, refl, refl, refl)
completed_fits p2p r fits waits = absurd (ground arith)
completed_fits bank_payout r fits waits = absurd (ground arith)
completed_fits reversal r fits waits = absurd (ground arith)

abbrev completed : WalletTransactionEntity → WalletTransactionEntity
completed r = set_status tx_successful r

kept_by_update :
    (k : String) (rows : Rows) (r : WalletTransactionEntity) (id : String)
    → BackedBy rows r id
    → BackedBy (update (by_id k) completed rows) r id
kept_by_update k rows r id (o, found, is_debit, wallet, amount) =
    elim (find-update-some (by_id id) (by_id k) completed rows o (λ x. refl) found) [
      | inl same ↦ (o, same, is_debit, wallet, amount)
      | inr done ↦ (completed o, done, is_debit, wallet, amount)
    ]

module _ (k : String) (rows : Rows) where
  AllBacked-update :
      (rest : Rows)
      → AllBacked rows rest
      → AllBacked (update (by_id k) completed rows) (update (by_id k) completed rest)
  AllBacked-update [] b = tt
  AllBacked-update (r ∷ rest) (first, b) = elim (Bool-cases (by_id k r)) [
    | inl done ↦ rw done (
      Backed-grows rows (update (by_id k) completed rows) r (completed r) r.reverses_transaction_id
          (kept_by_update k rows r) first,
      AllBacked-grows rows (update (by_id k) completed rows) rest (kept_by_update k rows) b,
    )
    | inr left ↦ rw left (
      Backed-grows rows (update (by_id k) completed rows) r r r.reverses_transaction_id
          (kept_by_update k rows r) first,
      AllBacked-update rest b,
    )
  ]

  -- The completion of a pending row.
  pub IsBooked-update :
      (t : WalletTransactionEntity)
      → find (by_id k) rows ≡ some t
      → t.status ≡ tx_pending
      → IsBooked rows
      → IsBooked (update (by_id k) completed rows)
  IsBooked-update t found waits b =
      let least : misfit t ≤ 0 =
        omega (arith, find-le-sum_by misfit (by_id k) rows t found, b.fit) in
      let fits : fits_as t.purpose t ≡ true = ground (arith, least) in
      let (done, no_in, no_out, none_in, none_out) = completed_fits t.purpose t fits waits in
      record {
        fit = ground (arith, sum_by-update misfit (by_id k) completed rows t found, done, b.fit);
        even = omega (
          arith,
          sum_by-update (λ (r : WalletTransactionEntity). received_as r.purpose r) (by_id k)
              completed rows t found,
          sum_by-update (λ (r : WalletTransactionEntity). sent_as r.purpose r) (by_id k) completed
              rows t found,
          b.even,
          no_in,
          no_out,
          none_in,
          none_out,
        );
        backed = AllBacked-update rows b.backed;
      }
