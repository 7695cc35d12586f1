-- ===== src/System/Stores.antt =====
-- The stores of users, transfers and webhook events do not touch the journal.
use prestohq_assessment.Prelude.{
  List, String, inl, inr, find, is_some, ◌||◌, Bool-cases, Option-cases,
}
use prestohq_assessment.Db.{WithdrawalEntity, UserEntity, WebhookEventStatus}
use prestohq_assessment.Keeping.{Keeps}
use prestohq_assessment.Journal.{Rows}
use prestohq_assessment.Journal.Balance.{InTables}
use prestohq_assessment.UserStore.{
  CreateUserData, user_taken, user_by_id, create_with_wallet, update_user,
}
use prestohq_assessment.TransferStore.{
  CreateTransferData, UpdateTransferData, transfer_by_id, transfer_refusal, create_transfer,
  update_transfer,
}
use prestohq_assessment.WebhookStore.{
  CreateWebhookEventData, event_by_id, event_by_provider_id, create_event, mark_event,
}

module _ (Q : Rows → List WithdrawalEntity → Type 0) where
  pub create_with_wallet-Keeps : (d : CreateUserData) → Keeps (InTables Q) (create_with_wallet d)
  unfolding create_with_wallet
  create_with_wallet-Keeps d s h = elim (Bool-cases (user_taken d s)) [
    | inl taken ↦ rw taken h
    | inr free ↦ rw free h
  ]

  pub update_user-Keeps :
      (id : String) (f : UserEntity → UserEntity) → Keeps (InTables Q) (update_user id f)
  unfolding update_user
  update_user-Keeps id f s h = elim (Bool-cases (is_some (find (user_by_id id) s.users))) [
    | inl there ↦ rw there h
    | inr absent ↦ rw absent h
  ]

  pub create_transfer-Keeps : (d : CreateTransferData) → Keeps (InTables Q) (create_transfer d)
  unfolding create_transfer
  create_transfer-Keeps d s h = elim (Option-cases (transfer_refusal d s)) [
    | inl free ↦ rw (free, create_transfer) h
    | inr (e, refused) ↦ rw (refused, create_transfer) h
  ]

  pub update_transfer-Keeps :
      (id : String) (d : UpdateTransferData) → Keeps (InTables Q) (update_transfer id d)
  unfolding update_transfer
  update_transfer-Keeps id d s h = elim (Option-cases (find (transfer_by_id id) s.transfers)) [
    | inl absent ↦ rw (absent, update_transfer) h
    | inr (t, found) ↦ rw (found, update_transfer) h
  ]

  pub create_event-Keeps : (d : CreateWebhookEventData) → Keeps (InTables Q) (create_event d)
  unfolding create_event
  create_event-Keeps d s h =
      elim (Bool-cases (
        is_some (find (event_by_provider_id d.provider_event_id) s.webhook_events)
        || is_some (find (event_by_id (s.cuid s.next_id)) s.webhook_events))) [
          | inl taken ↦ rw taken h
          | inr free ↦ rw free h
        ]

  pub mark_event-Keeps :
      (status : WebhookEventStatus) (id : String) → Keeps (InTables Q) (mark_event status id)
  unfolding mark_event
  mark_event-Keeps status id s h =
      elim (Bool-cases (is_some (find (event_by_id id) s.webhook_events))) [
        | inl there ↦ rw there h
        | inr absent ↦ rw absent h
      ]
