-- ===== src/Flutterwave/Service.antt =====
-- flutterwave-payment.service.ts of src/modules/payment-providers/flutterwave, the live implementation of
-- the provider's interface, and the choice between it and the mock in flutterwave-payment.module.ts.
use prestohq_assessment.Prelude.{
  String, Bool, not, ◌&&◌, ◌||◌, Option, none, some, str_eq, if◌then◌else◌, or_else, is_some,
}
use prestohq_assessment.Prelude.Text.{to_lower_case, includes}
use prestohq_assessment.Errors.{
  flutterwave_api_error, custom_error, bad_gateway, service_unavailable,
}
use prestohq_assessment.Exec.{Result, ok, err}
use prestohq_assessment.Provider.{
  InitiatePaymentParams, InitiatePaymentResult, VerifyPaymentResult, PaymentStatus,
  payment_successful, payment_failed, payment_pending, payment_unknown, InitiateBankTransferParams,
  BankStatus, bank_successful, bank_pending, bank_failed, bank_unknown, BankTransferResult,
  FlutterwaveProvider,
}
use prestohq_assessment.Flutterwave.Money.{Numbers, naira_to_kobo, kobo_to_naira}
use prestohq_assessment.Flutterwave.Api.{
  FlwPaymentInitRequest, FlwPaymentInitResponse, FlwVerifyData, FlwTransferInitRequest,
  FlwTransferData, FlwTransferResponse, FlwId, id_to_string, HttpResponse, WebService,
  FlutterwaveConfig, given, is_text, link_of, then_ok, api_initiate_payment,
  verify_transaction_by_reference, initiate_transfer, get_transfer_by_id, verify_webhook_hash,
}

-- `catch (err) { if (err instanceof FlutterwaveApiError) ...; throw err }`
abbrev pub on_api_error : {A : Type 0} → (String → Result A) → Result A → Result A
on_api_error handler (ok a) = ok a
on_api_error handler (err (flutterwave_api_error text)) = handler text
on_api_error handler (err e) = err e

-- s ?? '', in lower case
abbrev pub lower_status : Option String → String
lower_status status = to_lower_case (or_else status "")

abbrev pub id_text : Option FlwId → Option String
id_text none = none
id_text (some i) = some (id_to_string i)

-- `params` of the two requests
abbrev pub payment_request : (n : Numbers) → InitiatePaymentParams → FlwPaymentInitRequest n.Number
payment_request n params = record {
  tx_ref = params.tx_ref;
  amount = kobo_to_naira n params.amount_kobo;
  currency = params.currency;
  redirect_url = params.redirect_url;
  customer_email = params.customer_email;
  customer_name = params.customer_name;
  title = "Wallet funding";
  description = "Fund your wallet";
}

abbrev pub transfer_request :
    (n : Numbers) → InitiateBankTransferParams → FlwTransferInitRequest n.Number
transfer_request n params = record {
  account_bank = params.bank_code;
  account_number = params.account_number;
  amount = kobo_to_naira n params.amount_kobo;
  currency = params.currency;
  narration = params.narration;
  reference = params.reference;
}

abbrev pub payment_error : String → Result InitiatePaymentResult
payment_error text =
    if includes text "FLUTTERWAVE_SECRET_KEY"
    then err (custom_error service_unavailable text)
    else err (custom_error bad_gateway text)

abbrev pub payment_result : FlwPaymentInitResponse → Result InitiatePaymentResult
payment_result r = ok (record {
  checkout_url = or_else (link_of r) "";
  provider_payment_id = elim r.body [ none ↦ none | some d ↦ id_text d.id ];
})

-- `initiatePayment`
unfoldable pub live_payment :
    (n : Numbers)
    → FlutterwaveConfig
    → WebService n.Number
    → InitiatePaymentParams
    → Result InitiatePaymentResult
live_payment n config web params =
    on_api_error payment_error
      (then_ok (api_initiate_payment config web (payment_request n params)) payment_result)

unfoldable pub payment_status : String → PaymentStatus
payment_status s =
    if str_eq s "successful"
    then payment_successful
    else if str_eq s "failed"
    then payment_failed
    else if str_eq s "pending"
    then payment_pending
    else payment_unknown

abbrev pub unknown_payment : String → VerifyPaymentResult
unknown_payment tx_ref = record {
  status = payment_unknown;
  amount_kobo = 0;
  currency = "NGN";
  tx_ref = tx_ref;
  provider_transaction_id = none;
}

module _ (n : Numbers) where
  -- `Number(amount ?? 0)` of the source is the amount itself, as it is a number.
  abbrev pub verified_payment : String → FlwVerifyData n.Number → VerifyPaymentResult
  verified_payment tx_ref d = record {
    status = payment_status (lower_status d.status);
    amount_kobo = naira_to_kobo n (or_else d.amount (n.of_integer 0));
    currency = or_else d.currency "NGN";
    tx_ref = or_else d.tx_ref tx_ref;
    provider_transaction_id = id_text d.id;
  }

  abbrev pub verified_body : String → Bool → Option (FlwVerifyData n.Number) → VerifyPaymentResult
  verified_body tx_ref success none = unknown_payment tx_ref
  verified_body tx_ref success (some d) =
      if success then verified_payment tx_ref d else unknown_payment tx_ref

  -- `verifyByTxRef`
  unfoldable pub live_verify :
      FlutterwaveConfig → WebService n.Number → String → Result VerifyPaymentResult
  live_verify config web tx_ref =
      on_api_error (λ text. ok (unknown_payment tx_ref))
        (then_ok (verify_transaction_by_reference config web tx_ref)
          (λ r. ok (verified_body tx_ref (is_text r.status "success") r.body)))

-- An accepted answer on a transfer: a success with data
abbrev pub transfer_data : HttpResponse FlwTransferResponse → Option FlwTransferData
transfer_data r = if r.is_ok && is_text r.json.status "success" then r.json.body else none

unfoldable pub initiate_status : String → BankStatus
initiate_status s =
    if str_eq s "successful" || str_eq s "success"
    then bank_successful
    else if str_eq s "failed"
    then bank_failed
    else bank_pending

abbrev pub initiated : Option String → Option FlwTransferData → BankTransferResult
initiated message none = record {
  status = bank_failed;
  transfer_id = none;
  message = some (or_else message "Bank transfer initiation failed");
}
initiated message (some d) = record {
  status = initiate_status (lower_status d.status);
  transfer_id = id_text d.id;
  message = message;
}

-- `initiateBankTransfer`
unfoldable pub live_bank_transfer :
    (n : Numbers)
    → FlutterwaveConfig
    → WebService n.Number
    → InitiateBankTransferParams
    → Result BankTransferResult
live_bank_transfer n config web params =
    on_api_error
      (λ text. ok (record { status = bank_failed; transfer_id = none; message = some text }))
      (then_ok (initiate_transfer config web (transfer_request n params))
        (λ r. ok (initiated r.json.message (transfer_data r))))

unfoldable pub settle_status : String → BankStatus
settle_status s =
    if str_eq s "successful" || str_eq s "success"
    then bank_successful
    else if str_eq s "failed"
    then bank_failed
    else if str_eq s "pending" || str_eq s "new"
    then bank_pending
    else bank_unknown

abbrev pub unknown_transfer : String → Option String → BankTransferResult
unknown_transfer transfer_id message = record {
  status = bank_unknown;
  transfer_id = some transfer_id;
  message = message;
}

abbrev pub status_body : String → Option String → Option FlwTransferData → BankTransferResult
status_body transfer_id message none = unknown_transfer transfer_id message
status_body transfer_id message (some d) = record {
  status = settle_status (lower_status d.status);
  transfer_id = some (or_else (id_text d.id) transfer_id);
  message = message;
}

-- `getBankTransferStatus`
unfoldable pub live_bank_status :
    {Number : Type 0} → FlutterwaveConfig → WebService Number → String → Result BankTransferResult
live_bank_status config web transfer_id =
    on_api_error (λ text. ok (unknown_transfer transfer_id (some text)))
      (then_ok (get_transfer_by_id config web transfer_id)
        (λ r. ok (status_body transfer_id r.json.message (transfer_data r))))

-- `FlutterwavePaymentService`
unfoldable pub payment_service :
    (n : Numbers) → FlutterwaveConfig → WebService n.Number → FlutterwaveProvider
payment_service n config web = record {
  initiate_payment = live_payment n config web;
  verify_by_tx_ref = live_verify n config web;
  verify_webhook_signature = verify_webhook_hash config;
  initiate_bank_transfer = live_bank_transfer n config web;
  get_bank_transfer_status = live_bank_status config web;
}

-- The provider that the module hands out: the mock when asked for, and when there is no secret
unfoldable pub choose_provider :
    FlutterwaveConfig → (real mock : FlutterwaveProvider) → FlutterwaveProvider
choose_provider config real mock =
    if str_eq config.mock "true" || not (is_some (given config.secret_key)) then mock else real
