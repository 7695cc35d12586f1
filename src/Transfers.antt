-- ===== src/Transfers.antt =====
-- src/modules/transfers/services: the funding of a wallet through the provider, and transfers.service.ts.
mod Create
mod Webhook
unfoldable pub use Create.*
unfoldable pub use Webhook.*
use Prim.Native.String.{◌++◌}
use prestohq_assessment.Prelude.{
  ℕ, ◌+◌, String, Bool, true, false, not, Option, none, some, or_else, str_eq, append_row,
}
use prestohq_assessment.Prelude.Text.{trim, to_upper_case, slice_to, remove_dashes}
use prestohq_assessment.Errors.{Error, custom_error, bad_request, unauthorized, not_found, conflict}
use prestohq_assessment.Db.{
  JsValue, text, number, other, Payload, PayloadData, TransferEntity, TransferStatus,
  transfer_initiated, transfer_pending, WalletEntity, UserEntity, WebhookEventEntity,
  WebhookEventStatus, received, processed, event_failed,
}
use prestohq_assessment.Exec.{
  Action, pure, raise, raise_if, or_raise, gets, modify, lift, when, ◌>>=◌, ◌>>◌, Response,
}
use prestohq_assessment.Ledger.{PostCreditPendingInput, post_credit_pending}
use prestohq_assessment.UserStore.{find_user, find_wallet_by_user_id}
use prestohq_assessment.TransferStore.{
  CreateTransferData, find_transfer, find_transfer_by_user_and_key, create_transfer,
  update_transfer,
}
use prestohq_assessment.WebhookStore.{
  CreateWebhookEventData, find_by_provider_event_id, create_event,
}
use prestohq_assessment.Provider.{FlutterwaveProvider, InitiatePaymentParams}
use prestohq_assessment.Environment.{Environment, Actor, transfer_body}
use prestohq_assessment.Auth.{verify_pin}
use prestohq_assessment.Auth.Credential.{user_not_found}

abbrev pub owned_transfer : Actor → Option TransferEntity → Action TransferEntity
owned_transfer actor none = raise (custom_error not_found "Transfer not found")
owned_transfer actor (some t) = do
  raise_if (not (str_eq t.user_id actor.user_id)) (custom_error not_found "Transfer not found")
  pure t

-- `TransfersService.getOne`
unfoldable pub get_one : Actor → String → Action (Response TransferView)
get_one actor id = do
  found ← find_transfer id
  t ← owned_transfer actor found
  pure (to_response t "Transfer retrieved successfully")
