-- ===== src/System/Deposits.antt =====
-- What funding does to balances: nothing on the request and nothing on the webhook; the worker completes
-- at most one pending credit, that of the paid transfer (src/modules/transfers/services).
use mathlib.Core.Path.{subst}
use prestohq_assessment.Prelude.{
  sym, String, ◌≡◌, refl, ◌∙◌, inl, Bool, true, false, not, Option, none, some, find, select,
  if◌then◌else◌, arith, eq_iff, find_fits,
}
use prestohq_assessment.Db.{
  State, TransferEntity, TransferStatus, transfer_initiated, transfer_pending, transfer_successful,
  transfer_failed, WebhookEventEntity, Payload,
}
use prestohq_assessment.Prelude.Unique.{Unique}
use prestohq_assessment.Errors.{Error}
use prestohq_assessment.Exec.{
  Result, ok, err, Action, pure, raise, lift, when, continue, ◌>>=◌, ◌>>◌,
}
use prestohq_assessment.Keeping.{continue-Keeps}
use prestohq_assessment.Journal.{Rows, balance, for_transfer}
use prestohq_assessment.Journal.Balance.{InJournal}
use prestohq_assessment.Ledger.Credits.{balance-post_pending}
use prestohq_assessment.TransferStore.{transfer_by_tx_ref}
use prestohq_assessment.WebhookStore.{event_by_id, mark_failed}
use prestohq_assessment.Provider.{
  FlutterwaveProvider, VerifyPaymentResult, PaymentStatus, payment_successful, payment_failed,
  payment_pending, payment_unknown,
}
use prestohq_assessment.Environment.{Environment, Actor}
use prestohq_assessment.Transfers.{
  CreateTransferDto, create, handle_flutterwave_webhook, is_processed,
}
use prestohq_assessment.TransferComplete.{
  amount_ok, mismatch, credit_once, complete_verified, complete_by_status, complete_unless_done,
  complete_transfer, complete_tx_ref, nonempty, tx_ref_of, complete_event, complete_from_webhook,
}
use prestohq_assessment.System.Stores.{mark_event-Keeps}
use prestohq_assessment.System.Funding.{create_transfer_request-Keeps, handle_webhook-Keeps}
use prestohq_assessment.System.Crediting
use prestohq_assessment.System.Crediting.{Paid, CreditedOnce}

-- A request to fund a wallet changes no wallet's balance, whatever it answers.
pub balance-create_transfer :
    (env : Environment) (flutterwave : FlutterwaveProvider) (actor : Actor)
    (dto : CreateTransferDto) (key : String) (s : State) (w : String)
    → balance w (create env flutterwave actor dto key s).1.journal ≡ balance w s.journal
balance-create_transfer env flutterwave actor dto key s w =
    create_transfer_request-Keeps flutterwave (λ rows _. balance w rows ≡ balance w s.journal)
      (λ i other s' same. balance-post_pending i s' w ∙ same) env actor dto key s refl

-- The reception of a webhook leaves the journal as it is, whatever its signature and body.
pub journal-handle_webhook :
    (flutterwave : FlutterwaveProvider) (verif_hash : Option String) (body : Payload) (s : State)
    → (handle_flutterwave_webhook flutterwave verif_hash body s).1.journal ≡ s.journal
journal-handle_webhook flutterwave verif_hash body s =
    handle_webhook-Keeps flutterwave (λ rows _. rows ≡ s.journal) verif_hash body s refl

module _ (flutterwave : FlutterwaveProvider) (s : State) (event_id : String)
    (u : Unique (λ r. r.id) s.journal) where
  abbrev Same : Rows → Type 0
  Same rows = rows ≡ s.journal

  abbrev Once : Action (Unit {0}) → Type 0
  Once m = CreditedOnce flutterwave s event_id (m s).1.journal

  abbrev Reached : Rows → Type 0
  Reached = CreditedOnce flutterwave s event_id

  -- After a failed event and an error nothing follows.
  raised :
      (x : Result (Unit {0}) × State) (e : Error) (n : Action (Unit {0}))
      → Reached x.1.journal
      → Reached (continue {A = Unit} (λ _. n) (continue (λ _. raise e) x)).1.journal
  raised (ok _, s') e n once = once
  raised (err _, s') e n once = once

  guarded :
      (c : Bool) (e : Error) (n : Action (Unit {0}))
      → (c ≡ false → Once n)
      → Once (when c (mark_failed event_id >> raise e) >> n)
  guarded true e n once =
      raised (mark_failed event_id s) e n
        (inl (mark_event-Keeps (λ rows _. Same rows) _ event_id s refl))
  guarded false e n once = once refl

  module _ (e : WebhookEventEntity) (tx_ref : String) (t : TransferEntity)
      (stored : find (event_by_id event_id) s.webhook_events ≡ some e)
      (named : nonempty (tx_ref_of e) ≡ some tx_ref)
      (of_reference : find (transfer_by_tx_ref tx_ref) s.transfers ≡ some t) where
    complete_verified-CreditedOnce :
        (v : VerifyPaymentResult)
        → flutterwave.verify_by_tx_ref tx_ref ≡ ok v
        → v.status ≡ payment_successful
        → Once (complete_verified event_id t v)
    unfolding complete_verified
    complete_verified-CreditedOnce v verified successful =
        guarded (not (amount_ok v t)) mismatch _ (λ right.
          let paid : Paid flutterwave s event_id t = record {
            event = e;
            tx_ref = tx_ref;
            verification = v;
            stored = stored;
            named = named;
            of_reference = of_reference;
            verified = verified;
            successful = successful;
            right_amount = ground (arith, right);
          } in
          continue-Keeps (InJournal Reached) _
            (credit_once event_id t (select (for_transfer t.id) s.journal) s)
            (Crediting.credit_once-CreditedOnce flutterwave s event_id u t paid)
            (λ _. Crediting.closed flutterwave s event_id u Reached t.id _))

    complete_by_status-CreditedOnce :
        (b : PaymentStatus) (v : VerifyPaymentResult)
        → flutterwave.verify_by_tx_ref tx_ref ≡ ok v
        → v.status ≡ b
        → Once (complete_by_status b event_id t v)
    complete_by_status-CreditedOnce payment_successful v verified is =
        complete_verified-CreditedOnce v verified is
    complete_by_status-CreditedOnce payment_failed v verified is =
        inl (Crediting.closed flutterwave s event_id u Same t.id _ s refl)
    complete_by_status-CreditedOnce payment_pending v verified is = inl refl
    complete_by_status-CreditedOnce payment_unknown v verified is = inl refl

    called :
        (r : Result VerifyPaymentResult)
        → flutterwave.verify_by_tx_ref tx_ref ≡ r
        → Once (lift r >>= λ v. complete_by_status v.status event_id t v)
    called (ok v) verified = complete_by_status-CreditedOnce v.status v verified refl
    called (err e) verified = inl refl

    complete_unless_done-CreditedOnce :
        (b : TransferStatus) → Once (complete_unless_done flutterwave b event_id tx_ref t)
    complete_unless_done-CreditedOnce transfer_successful =
        inl (mark_event-Keeps (λ rows _. Same rows) _ event_id s refl)
    complete_unless_done-CreditedOnce transfer_initiated =
        called (flutterwave.verify_by_tx_ref tx_ref) refl
    complete_unless_done-CreditedOnce transfer_pending =
        called (flutterwave.verify_by_tx_ref tx_ref) refl
    complete_unless_done-CreditedOnce transfer_failed =
        called (flutterwave.verify_by_tx_ref tx_ref) refl

  module _ (e : WebhookEventEntity)
      (stored : find (event_by_id event_id) s.webhook_events ≡ some e) where
    complete_transfer-CreditedOnce :
        (tx_ref : String) (o : Option TransferEntity)
        → nonempty (tx_ref_of e) ≡ some tx_ref
        → find (transfer_by_tx_ref tx_ref) s.transfers ≡ o
        → Once (complete_transfer flutterwave event_id tx_ref o)
    complete_transfer-CreditedOnce tx_ref none named unknown =
        inl (mark_event-Keeps (λ rows _. Same rows) _ event_id s refl)
    complete_transfer-CreditedOnce tx_ref (some t) named found =
        complete_unless_done-CreditedOnce e tx_ref t stored named found t.status

    complete_tx_ref-CreditedOnce :
        (o : Option String)
        → nonempty (tx_ref_of e) ≡ o
        → Once (complete_tx_ref flutterwave event_id o)
    complete_tx_ref-CreditedOnce none unnamed =
        Crediting.marked flutterwave s event_id u _ (λ s h. h)
    complete_tx_ref-CreditedOnce (some tx_ref) named =
        complete_transfer-CreditedOnce tx_ref (find (transfer_by_tx_ref tx_ref) s.transfers) named
          refl

  unless_processed : (c : Bool) (m : Action (Unit {0})) → Once m → Once (if c then pure tt else m)
  unless_processed true m once = inl refl
  unless_processed false m once = once

  complete_event-CreditedOnce :
      (o : Option WebhookEventEntity)
      → find (event_by_id event_id) s.webhook_events ≡ o
      → Once (complete_event flutterwave o)
  complete_event-CreditedOnce none unknown = inl refl
  complete_event-CreditedOnce (some e) stored =
      let same : e.id ≡ event_id =
        (eq_iff e.id event_id).0 (find_fits (event_by_id event_id) s.webhook_events e stored) in
      unless_processed (is_processed e.status)
        (complete_tx_ref flutterwave e.id (nonempty (tx_ref_of e)))
        (subst (λ id. Once (complete_tx_ref flutterwave id (nonempty (tx_ref_of e)))) (sym same)
          (complete_tx_ref-CreditedOnce e stored (nonempty (tx_ref_of e)) refl))

  -- From a journal of distinct identifiers, one run of the completion job for an event, with any answer
  -- of the provider and whether or not it throws, leaves the journal as it is, or turns one pending row
  -- successful and changes no other: that row is a credit of the transfer which the event names, in
  -- that transfer's wallet, the provider reports the transfer as paid, at its amount or at none (0),
  -- and the transfer had no successful credit. Then the wallet's balance, and no other, has grown by
  -- the row's amount.
  pub complete_from_webhook-CreditedOnce :
      CreditedOnce flutterwave s event_id (complete_from_webhook flutterwave event_id s).1.journal
  unfolding complete_from_webhook
  complete_from_webhook-CreditedOnce =
      complete_event-CreditedOnce (find (event_by_id event_id) s.webhook_events) refl
