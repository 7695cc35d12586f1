-- ===== src/System/Funding.antt =====
-- A funding request and a webhook keep what the database transactions keep.
use prestohq_assessment.Prelude.{List, String, not, Option, none, some, find, str_eq}
use prestohq_assessment.Db.{
  WithdrawalEntity, TransferEntity, WebhookEventEntity, Payload, WalletEntity, UserEntity,
}
use prestohq_assessment.Exec.{lift, when}
use prestohq_assessment.Keeping.{
  Keeps, bind-Keeps, then-Keeps, when-Keeps, lift-Keeps, guard-Keeps, require-Keeps,
}
use prestohq_assessment.Journal.{Rows}
use prestohq_assessment.Journal.Keys.{IsOtherKey, funding_key}
use prestohq_assessment.Journal.Balance.{InTables}
use prestohq_assessment.Ledger.{post_credit_pending}
use prestohq_assessment.Ledger.{PostCreditPendingInput, post_credit_pending}
use prestohq_assessment.UserStore.{user_by_id, wallet_by_user}
use prestohq_assessment.TransferStore.{transfer_by_user_and_key, create_transfer, update_transfer}
use prestohq_assessment.WebhookStore.{event_by_provider_id, create_event}
use prestohq_assessment.Provider.{FlutterwaveProvider}
use prestohq_assessment.Environment.{Environment, Actor, transfer_body}
use prestohq_assessment.Auth.{verify_pin}
use prestohq_assessment.Transfers.{
  CreateTransferDto, currency_of, transfer_data, funding_input, payment_params, pay_in, create_rows,
  create_new, create_unless, create, new_flutterwave_tx_ref, is_processed, receive,
  enqueue_complete, received_data, provider_event_id, webhook_data, handle_flutterwave_webhook,
}
use prestohq_assessment.System.Stores.{
  create_transfer-Keeps, update_transfer-Keeps, create_event-Keeps,
}
use prestohq_assessment.System.Accounts.{verify_pin-Keeps}

module _ (flutterwave : FlutterwaveProvider) where
  module _ (Q : Rows → List WithdrawalEntity → Type 0) where
    receive-Keeps :
        (body : Payload) (event_id : String) (o : Option WebhookEventEntity)
        → Keeps (InTables Q) (receive body event_id o)
    receive-Keeps body event_id (some e) =
        then-Keeps (InTables Q) (when (not (is_processed e.status)) (enqueue_complete e.id)) _
          (when-Keeps (InTables Q) (not (is_processed e.status)) (enqueue_complete e.id) (λ s h. h))
          (λ s h. h)
    receive-Keeps body event_id none =
        bind-Keeps (InTables Q) (create_event (received_data body event_id)) _
          (create_event-Keeps Q (received_data body event_id)) (λ _ s h. h)

    pub handle_webhook-Keeps :
        (verif_hash : Option String) (body : Payload)
        → Keeps (InTables Q) (handle_flutterwave_webhook flutterwave verif_hash body)
    unfolding handle_flutterwave_webhook
    handle_webhook-Keeps verif_hash body =
        guard-Keeps (InTables Q) (not (flutterwave.verify_webhook_signature verif_hash)) _ _ (
          require-Keeps (InTables Q) (provider_event_id (webhook_data body).id body.id) _ _
            (λ event_id s h.
              receive-Keeps body event_id (find (event_by_provider_id event_id) s.webhook_events) s
                h))

  module _ (Q : Rows → List WithdrawalEntity → Type 0)
      (pending_keeps : (i : PostCreditPendingInput)
        → IsOtherKey i.idempotency_key
        → Keeps (InTables Q) (post_credit_pending i)) where
    module _ (env : Environment) (actor : Actor) (dto : CreateTransferDto) (key : String) where
      pay_in-Keeps :
          (u : UserEntity) (tx_ref : String) (t : TransferEntity)
          → Keeps (InTables Q) (pay_in env flutterwave dto u tx_ref t)
      pay_in-Keeps u tx_ref t =
          bind-Keeps (InTables Q)
            (lift (flutterwave.initiate_payment (payment_params env dto u tx_ref))) _
            (lift-Keeps (InTables Q)
              (flutterwave.initiate_payment (payment_params env dto u tx_ref)))
            (λ payment.
              bind-Keeps (InTables Q) (update_transfer t.id _) _ (update_transfer-Keeps Q t.id _)
                (λ _ s h. h))

      create_rows-Keeps :
          (w : WalletEntity) (u : UserEntity) (tx_ref : String)
          → Keeps (InTables Q) (create_rows env flutterwave actor dto key w u tx_ref)
      create_rows-Keeps w u tx_ref =
          bind-Keeps (InTables Q) (create_transfer (transfer_data env actor dto key w tx_ref)) _
            (create_transfer-Keeps Q (transfer_data env actor dto key w tx_ref))
            (λ t.
              then-Keeps (InTables Q) (post_credit_pending (funding_input actor dto key w tx_ref t))
                _ (pending_keeps (funding_input actor dto key w tx_ref t) (funding_key _))
                (pay_in-Keeps u tx_ref t))

      create_new-Keeps : Keeps (InTables Q) (create_new env flutterwave actor dto key)
      unfolding create_new new_flutterwave_tx_ref
      create_new-Keeps s h =
          require-Keeps (InTables Q) (find (wallet_by_user actor.user_id) s.wallets) _ _
            (λ w s h.
              require-Keeps (InTables Q) (find (user_by_id actor.user_id) s.users) _ _
                (λ u s h. create_rows-Keeps w u _ _ h) s h)
            s h

      create_unless-Keeps :
          (o : Option TransferEntity)
          → Keeps (InTables Q) (create_unless env flutterwave actor dto key o)
      create_unless-Keeps none = create_new-Keeps
      create_unless-Keeps (some t) =
          guard-Keeps (InTables Q)
            (not (
              str_eq t.request_body_hash
                (env.hash_request_body (transfer_body dto.amount (currency_of dto)))))
            _ _ (λ s h. h)

      pub create_transfer_request-Keeps : Keeps (InTables Q) (create env flutterwave actor dto key)
      unfolding create
      create_transfer_request-Keeps =
          then-Keeps (InTables Q) (verify_pin env actor.user_id dto.pin) _
            (verify_pin-Keeps Q env actor.user_id dto.pin)
            (guard-Keeps (InTables Q) (not (str_eq (currency_of dto) "NGN")) _ _ (λ s h.
              create_unless-Keeps (find (transfer_by_user_and_key actor.user_id key) s.transfers) s
                h))
