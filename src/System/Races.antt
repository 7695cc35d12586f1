-- ===== src/System/Races.antt =====
-- Requests and jobs that run at the same time, as in System/Interleaving, with what the services see to
-- before a refund: they post it under the key of its debit, and only after the tests of `postReversal` on
-- that debit, which read the journal outside the transaction. So there the run has a middle, the journal
-- that was read, and any transactions of other requests and jobs may come between.
use prestohq_assessment.Prelude.{
  ◌+◌, ◌≤◌, String, ◌≡◌, refl, inl, inr, some, [], find, sum_by, str_eq-true, ◌∙◌, Bool-cases,
  Option-cases, ◌==◌,
}
use prestohq_assessment.Prelude.Int.{sub_ℕ}
use prestohq_assessment.Db.{State, WalletTransactionEntity}
use prestohq_assessment.Exec.{transaction, ok}
use prestohq_assessment.Keeping.{transaction-Keeps, handle-Keeps}
use prestohq_assessment.Journal.{Rows, by_id, by_key, new_row}
use prestohq_assessment.Journal.Balance.{InJournal}
use prestohq_assessment.Journal.Books.{
  IsBooked, BackedBy, total, deposits, payouts, refunds, repaid,
}
use prestohq_assessment.Journal.Accounting.{total_accounted, repaid_in}
use prestohq_assessment.Journal.Bookkeeping.{IsBooked-append_row}
use prestohq_assessment.Journal.Trail.{
  Extends, Extends-refl, Extends-append_row, Extends-find, settled-keeps,
}
use prestohq_assessment.Ledger.{
  PostCreditPendingInput, CompleteCreditInput, PostReversalInput, pending_body, reversal_data,
  complete_credit_successful, reversal_body, check_original, post_reversal_credit,
  rethrow_wallet_missing,
}
use prestohq_assessment.Ledger.Reversals.{check_original-cases, IsOriginal}
use prestohq_assessment.Ledger.Writes.{reversal_body-Keeps}
use prestohq_assessment.WithdrawalStore.{
  ExecuteP2pWithdrawalData, ExecuteBankWithdrawalData, p2p_body, bank_body,
}
use prestohq_assessment.WithdrawalStore.Transactions.{HasReversalKey, IsKept, IsKeptByCalls}
use prestohq_assessment.WithdrawalStore.Writes.{IsKeptByWrites-IsKept}
use prestohq_assessment.Environment.{Environment}
use prestohq_assessment.System.{Operation, perform, Reachable}
use prestohq_assessment.System.Reach.{perform-KeepsByCalls, Reachable-KeepsByCalls}
use prestohq_assessment.System.History.{IsKeyed, IsKeyed-kept, Extends-kept}
use prestohq_assessment.System.Books.{IsBooked-kept, empty-IsBooked, empty-IsKeyed}

-- The tests of `postReversal` on the debit pass in a state.
abbrev pub Tested : PostReversalInput → State → Type 0
Tested i s = check_original i (find (by_id i.original_debit_id) s.journal) s ≡ (ok tt, s)

-- From a journal to one that transactions of the services make of it
pub data Races : Rows → Rows → Type 0 where
  finish : {j : Rows} → Races j j
  race_pending :
      {j : Rows} (s : State) (i : PostCreditPendingInput)
      → Races j s.journal
      → Races j (transaction (pending_body i) s).1.journal
  race_complete :
      {j : Rows} (s : State) (i : CompleteCreditInput)
      → Races j s.journal
      → Races j (complete_credit_successful i s).1.journal
  race_p2p :
      {j : Rows} (s : State) (d : ExecuteP2pWithdrawalData)
      → Races j s.journal
      → Races j (transaction (p2p_body d) s).1.journal
  race_bank :
      {j : Rows} (s : State) (d : ExecuteBankWithdrawalData)
      → Races j s.journal
      → Races j (transaction (bank_body d) s).1.journal
  race_reversal :
      {j : Rows} (read s : State) (i : PostReversalInput)
      → HasReversalKey i
      → Races j read.journal
      → Tested i read
      → Races read.journal s.journal
      → Races j (transaction (reversal_body i) s).1.journal

module _ (Q : Rows → Type 0) (kept : IsKept Q) where
  Races-Keeps : {j j' : Rows} → Q j → Races j j' → Q j'
  Races-Keeps h finish = h
  Races-Keeps h (race_pending s i r) = kept.pending i s (Races-Keeps h r)
  Races-Keeps h (race_complete s i r) = kept.complete i s (Races-Keeps h r)
  Races-Keeps h (race_p2p s d r) = kept.p2p d s (Races-Keeps h r)
  Races-Keeps h (race_bank s d r) = kept.bank d s (Races-Keeps h r)
  Races-Keeps h (race_reversal read s i key r tested more) =
      kept.reversal i s (Races-Keeps (Races-Keeps h r) more)

Races-Extends : {j j' : Rows} → Races j j' → Extends j j'
Races-Extends {j} r =
    Races-Keeps (Extends j) (IsKeptByWrites-IsKept (Extends j) (Extends-kept j)) (Extends-refl j) r

-- Tests that passed say what the debit was then, which it is for good.
Tested-IsOriginal :
    (i : PostReversalInput) (read : State)
    → Tested i read
    → (t : WalletTransactionEntity) × (find (by_id i.original_debit_id) read.journal ≡ some t)
      × IsOriginal i t
Tested-IsOriginal i read tested =
    elim (check_original-cases i read (find (by_id i.original_debit_id) read.journal)) [
      | inl (e, refused) ↦ absurd (cc (tested, refused))
      | inr (passed, original) ↦ original
    ]

still_backed :
    (i : PostReversalInput) (read s : State)
    → Tested i read
    → Extends read.journal s.journal
    → BackedBy s.journal (new_row (reversal_data i) s) i.original_debit_id
still_backed i read s tested e =
    let (t, found, (is_debit, wallet, amount)) = Tested-IsOriginal i read tested in
    let (q, there, settled) = Extends-find i.original_debit_id read.journal s.journal t e found in
    let (_, same_type, same_wallet, same_amount) = settled-keeps t q settled in
    (q, there, same_type ∙ is_debit, same_wallet ∙ wallet, same_amount ∙ amount)

late_reversal-IsBooked :
    (i : PostReversalInput) (read s : State)
    → HasReversalKey i
    → Tested i read
    → Extends read.journal s.journal
    → IsBooked s.journal
    → IsBooked (transaction (reversal_body i) s).1.journal
late_reversal-IsBooked i read s key tested e b =
    let Q : Rows → Type 0 = λ rows. IsBooked rows × Extends read.journal rows in
    let kept =
      transaction-Keeps (InJournal Q) (reversal_body i)
        (reversal_body-Keeps Q i (λ s' new_id new_key small h. (
          IsBooked-append_row s'.journal (new_row (reversal_data i) s') (str_eq-true key) refl
              (still_backed i read s' tested h.1) h.0,
          Extends-append_row read.journal s'.journal (new_row (reversal_data i) s') h.1,
        )))
        s (b, e) in
    kept.0

Races-IsBooked : {j j' : Rows} → IsBooked j → Races j j' → IsBooked j'
Races-IsBooked b finish = b
Races-IsBooked b (race_pending s i r) = IsBooked-kept.pending i s (Races-IsBooked b r)
Races-IsBooked b (race_complete s i r) = IsBooked-kept.complete i s (Races-IsBooked b r)
Races-IsBooked b (race_p2p s d r) = IsBooked-kept.p2p d s (Races-IsBooked b r)
Races-IsBooked b (race_bank s d r) = IsBooked-kept.bank d s (Races-IsBooked b r)
Races-IsBooked b (race_reversal read s i key r tested more) =
    late_reversal-IsBooked i read s key tested (Races-Extends more)
      (Races-IsBooked (Races-IsBooked b r) more)

posting-Races :
    (j : Rows) (i : PostReversalInput)
    → HasReversalKey i
    → (s : State) → Races j s.journal
    → Races j (post_reversal_credit i s).1.journal
unfolding post_reversal_credit
posting-Races j i key s r = elim (Bool-cases (i.amount == 0)) [
  | inl zero_amount ↦ rw zero_amount r
  | inr positive ↦ elim (Option-cases (find (by_key i.idempotency_key) s.journal)) [
    | inr (t, old) ↦ rw (positive, old) r
    | inl new ↦ elim (check_original-cases i s (find (by_id i.original_debit_id) s.journal)) [
      | inl (e, refused) ↦ rw (positive, new, refused) r
      | inr (passed, original) ↦
          rw (positive, new, passed)
            (handle-Keeps (InJournal (Races j)) (rethrow_wallet_missing i.wallet_id)
              (transaction (reversal_body i) s) (race_reversal s s i key r passed finish))
    ]
  ]
]

Races-kept : (j : Rows) → IsKeptByCalls (Races j)
Races-kept j = record {
  pending = λ i s r. race_pending s i r;
  complete = λ i s r. race_complete s i r;
  reversal = posting-Races j;
  p2p = λ d s r. race_p2p s d r;
  bank = λ d s r. race_bank s d r;
}

-- Every operation of the service, also one that fails half-way, changes the journal only by transactions
-- that a race may have, and by a refund only under the key of its debit and after its tests.
pub perform-Races :
    (env : Environment) (o : Operation) (s : State) → Races s.journal (perform env o s).journal
perform-Races env o s = perform-KeepsByCalls (Races s.journal) (Races-kept s.journal) env o s finish

pub Reachable-Races :
    (env : Environment) (first s : State) → Reachable env first s → Races first.journal s.journal
Reachable-Races env first s r =
    Reachable-KeepsByCalls (Races first.journal) (Races-kept first.journal) env first s finish r

-- However the transactions of concurrent requests and jobs interleave, from an empty journal, and whatever
-- comes between the tests of a refund and its transaction: the rows that name a journal row as the one
-- they pay back pay together at most that row's amount, and the money in all wallets together is what
-- the completed deposits and the refunds brought, less what the bank payouts took.
pub interleaved_refunds :
    (id : String) (j : Rows) (o : WalletTransactionEntity)
    → Races [] j
    → find (by_id id) j ≡ some o
    → (sum_by (repaid id) j ≤ o.amount) × (total j ≡ sub_ℕ (deposits j + refunds j) (payouts j))
interleaved_refunds id j o r found =
    let b : IsBooked j = Races-IsBooked empty-IsBooked r in
    let k : IsKeyed j =
      Races-Keeps IsKeyed (IsKeptByWrites-IsKept IsKeyed IsKeyed-kept) empty-IsKeyed r in
    (repaid_in id o j j found k.keys b.fit b.backed, total_accounted j b)
