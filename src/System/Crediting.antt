-- ===== src/System/Crediting.antt =====
-- The credit of a paid transfer: what the completion job (src/modules/transfers/services) may do to the
-- journal, and that its step `credit_once` does no more.
use mathlib.Core.Path.{subst}
use prestohq_assessment.Prelude.{
  String, ◌≡◌, refl, ◌⊎◌, inl, inr, true, Option, none, some, find, select, update, arith,
  Option-cases, find_fits,
}
use prestohq_assessment.Prelude.Int.{pos, ◌+ℤ◌}
use prestohq_assessment.Db.{
  State, TransferEntity, WebhookEventEntity, WalletTransactionEntity, tx_pending, tx_successful,
}
use prestohq_assessment.Prelude.Unique.{Unique, Unique-find}
use prestohq_assessment.Exec.{ok, Action, pure, ◌>>◌}
use prestohq_assessment.Keeping.{Keeps, continue-Keeps, then-Keeps}
use prestohq_assessment.Journal.{Rows, balance, by_id, for_transfer, is_credit, set_status}
use prestohq_assessment.Journal.Balance.{InJournal}
use prestohq_assessment.Ledger.{CompleteCreditInput, complete_credit_successful}
use prestohq_assessment.Ledger.Completion.{
  completion_share, complete-cases, found_by_own_id, balance-completed,
}
use prestohq_assessment.TransferStore.{UpdateTransferData, update_transfer, transfer_by_tx_ref}
use prestohq_assessment.WebhookStore.{event_by_id, mark_failed, mark_processed}
use prestohq_assessment.Provider.{FlutterwaveProvider, VerifyPaymentResult, payment_successful}
use prestohq_assessment.TransferComplete.{
  amount_ok, is_successful_credit, is_pending_credit, credit_pending_row, credit_once, nonempty,
  tx_ref_of,
}
use prestohq_assessment.System.Stores.{update_transfer-Keeps, mark_event-Keeps}

module _ (flutterwave : FlutterwaveProvider) (s : State) (event_id : String) where
  -- The transfer of the event's reference is paid: the provider says so, at its amount or at 0, which
  -- stands for no amount.
  pub record Paid (t : TransferEntity) : Type 0 where
    pub event : WebhookEventEntity
    pub tx_ref : String
    pub verification : VerifyPaymentResult
    pub stored : find (event_by_id event_id) s.webhook_events ≡ some event
    pub named : nonempty (tx_ref_of event) ≡ some tx_ref
    pub of_reference : find (transfer_by_tx_ref tx_ref) s.transfers ≡ some t
    pub verified : flutterwave.verify_by_tx_ref tx_ref ≡ ok verification
    pub successful : verification.status ≡ payment_successful
    pub right_amount : amount_ok verification t ≡ true

  -- The credit of a paid transfer is completed: a pending row of the journal, on behalf of that transfer,
  -- which had no successful credit, and in its wallet.
  pub record Credit (rows : Rows) : Type 0 where
    pub transfer : TransferEntity
    pub paid : Paid transfer
    pub row : WalletTransactionEntity
    pub stored : find (by_id row.id) s.journal ≡ some row
    pub of_transfer : for_transfer transfer.id row ≡ true
    pub of_wallet : row.wallet_id ≡ transfer.wallet_id
    pub a_credit : is_credit row.type ≡ true
    pub waits : row.status ≡ tx_pending
    pub uncredited : find is_successful_credit (select (for_transfer transfer.id) s.journal) ≡ none
    pub completes : rows ≡ update (by_id row.id) (set_status tx_successful) s.journal
    pub moved : (w : String) → balance w rows ≡ balance w s.journal +ℤ pos (completion_share row w)

  -- What one run of the completion job makes of the journal
  abbrev pub CreditedOnce : Rows → Type 0
  CreditedOnce rows = (rows ≡ s.journal) ⊎ Credit rows

  module _ (u : Unique (λ r. r.id) s.journal) where
    abbrev pub Same : Rows → Type 0
    Same rows = rows ≡ s.journal

    abbrev pub Once : Action (Unit {0}) → Type 0
    Once m = CreditedOnce (m s).1.journal

    -- A failed event, and an error after it
    pub marked :
        (n : Action (Unit {0})) → Keeps (InJournal Same) n → Once (mark_failed event_id >> n)
    marked n next = inl (
        then-Keeps (InJournal Same) (mark_failed event_id) n
          (mark_event-Keeps (λ rows _. Same rows) _ event_id) next s refl)

    pub closed :
        (Q : Rows → Type 0) (id : String) (d : UpdateTransferData)
        → Keeps (InJournal Q) (update_transfer id d >> mark_processed event_id)
    closed Q id d =
        then-Keeps (InJournal Q) (update_transfer id d) (mark_processed event_id)
          (update_transfer-Keeps (λ rows _. Q rows) id d)
          (mark_event-Keeps (λ rows _. Q rows) _ event_id)

    module _ (t : TransferEntity) (paid : Paid t) where
      abbrev all : Rows
      all = select (for_transfer t.id) s.journal

      module _ (uncredited : find is_successful_credit all ≡ none) where
        completed_row :
            (row : WalletTransactionEntity)
            → find is_pending_credit all ≡ some row
            → CreditedOnce
                (complete_credit_successful
                  (record { transaction_id = row.id; expected_wallet_id = t.wallet_id })
                  s).1.journal
        completed_row row awaiting =
            let i : CompleteCreditInput = record {
              transaction_id = row.id;
              expected_wallet_id = t.wallet_id;
            } in
            elim (complete-cases i s) [
              | inl (e, refused) ↦ rw refused (inl refl)
              | inr (inl (q, old, _, _)) ↦ rw old (inl refl)
              | inr (inr (q, done, named, waits)) ↦
                  let (there, fits) =
                    Unique-find (λ r. r.id) (for_transfer t.id) is_pending_credit s.journal row u
                      awaiting in
                  let same : row ≡ q = cc (there, named.found) in
                  let pending : is_pending_credit row ≡ true =
                    find_fits is_pending_credit all row awaiting in
                  let a_credit : is_credit row.type ≡ true = ground (arith, pending) in
                  let q_credit : is_credit q.type ≡ true =
                    subst (λ x. is_credit x.type ≡ true) same a_credit in
                  let found : find (by_id q.id) s.journal ≡ some q = found_by_own_id i s q named in
                  rw done (
                    inr (record {
                      transfer = t;
                      paid = paid;
                      row = q;
                      stored = found;
                      of_transfer = subst (λ x. for_transfer t.id x ≡ true) same fits;
                      of_wallet = named.of_wallet;
                      a_credit = q_credit;
                      waits = waits;
                      uncredited = uncredited;
                      completes = refl;
                      moved = λ w. balance-completed s q found waits w q_credit;
                    }))
            ]

        credit_pending_row-CreditedOnce :
            (o : Option WalletTransactionEntity)
            → find is_pending_credit all ≡ o
            → Once (credit_pending_row event_id t o)
        credit_pending_row-CreditedOnce none none_waits = marked _ (λ s h. h)
        credit_pending_row-CreditedOnce (some row) awaiting =
            continue-Keeps (InJournal CreditedOnce) (λ _. pure tt) (complete_credit_successful _ s)
              (completed_row row awaiting) (λ _ s h. h)

      pub credit_once-CreditedOnce : Once (credit_once event_id t all)
      unfolding credit_once
      credit_once-CreditedOnce = elim (Option-cases (find is_successful_credit all)) [
        | inr (r, already) ↦ rw already (inl refl)
        | inl uncredited ↦
            rw uncredited
              (credit_pending_row-CreditedOnce uncredited (find is_pending_credit all) refl)
      ]
