-- ===== src/Provider.antt =====
-- The payment provider's interface, src/modules/payment-providers/flutterwave/
-- flutterwave-payment.interface.ts, and its mock, flutterwave-mock.adapter.ts. An answer that a
-- request gets is a value of the interface; at another time it may be another value.
use Prim.Native.String.{◌++◌}
use prestohq_assessment.Prelude.{ℕ, String, Bool, false, Option, none, some, str_eq, if◌then◌else◌}
use prestohq_assessment.Prelude.Text.{ends_with, includes}
use prestohq_assessment.Exec.{Result, ok}

pub record InitiatePaymentParams : Type 0 where
  pub tx_ref : String
  pub amount_kobo : ℕ
  pub currency : String
  pub customer_email : String
  pub customer_name : String
  pub redirect_url : String

pub record InitiatePaymentResult : Type 0 where
  pub checkout_url : String
  pub provider_payment_id : Option String

pub data PaymentStatus : Type 0 where
  payment_successful payment_failed payment_pending payment_unknown : PaymentStatus

pub record VerifyPaymentResult : Type 0 where
  pub status : PaymentStatus
  pub amount_kobo : ℕ
  pub currency : String
  pub tx_ref : String
  pub provider_transaction_id : Option String

pub record InitiateBankTransferParams : Type 0 where
  pub reference : String
  pub amount_kobo : ℕ
  pub currency : String
  pub bank_code : String
  pub account_number : String
  pub narration : String

pub data BankStatus : Type 0 where
  bank_successful bank_pending bank_failed bank_unknown : BankStatus

-- `InitiateBankTransferResult` and `BankTransferStatusResult`; the first never has `bank_unknown`
-- from either provider.
pub record BankTransferResult : Type 0 where
  pub status : BankStatus
  pub transfer_id : Option String
  pub message : Option String

pub record FlutterwaveProvider : Type 0 where
  pub initiate_payment : InitiatePaymentParams → Result InitiatePaymentResult
  pub verify_by_tx_ref : String → Result VerifyPaymentResult
  pub verify_webhook_signature : Option String → Bool
  pub initiate_bank_transfer : InitiateBankTransferParams → Result BankTransferResult
  pub get_bank_transfer_status : String → Result BankTransferResult

mock_payment : (String → String) → InitiatePaymentParams → Result InitiatePaymentResult
mock_payment encode_uri_component p = ok (record {
  checkout_url = "https://checkout.flutterwave.com/mock?tx_ref=" ++ encode_uri_component p.tx_ref;
  provider_payment_id = some ("mock-" ++ p.tx_ref);
})

mock_verify : String → Result VerifyPaymentResult
mock_verify tx_ref = ok (record {
  status = payment_successful;
  amount_kobo = 0;
  currency = "NGN";
  tx_ref = tx_ref;
  provider_transaction_id = some ("mock-txn-" ++ tx_ref);
})

mock_signature : Option String → Bool
mock_signature none = false
mock_signature (some h) = str_eq h "mock-webhook-secret"

mock_bank_transfer : InitiateBankTransferParams → Result BankTransferResult
mock_bank_transfer p =
    if ends_with p.account_number "000"
    then ok (record {
      status = bank_failed;
      transfer_id = none;
      message = some "Mock initiate failure";
    })
    else if ends_with p.account_number "999"
    then ok (record {
      status = bank_pending;
      transfer_id = some ("mock-xfer-fail-" ++ p.reference);
      message = some "Mock pending — will fail on settle";
    })
    else ok (record {
      status = bank_successful;
      transfer_id = some ("mock-xfer-ok-" ++ p.reference);
      message = some "Mock bank transfer successful";
    })

mock_bank_status : String → Result BankTransferResult
mock_bank_status transfer_id =
    if includes transfer_id "fail"
    then ok (record {
      status = bank_failed;
      transfer_id = some transfer_id;
      message = some "Mock settle failure";
    })
    else ok (record {
      status = bank_successful;
      transfer_id = some transfer_id;
      message = some "Mock settle successful";
    })

-- `FlutterwaveMockAdapter`, over the language's `encodeURIComponent`
unfoldable pub mock_adapter : (String → String) → FlutterwaveProvider
unfolding mock_payment mock_verify mock_signature mock_bank_transfer mock_bank_status ends_with
    includes
mock_adapter encode_uri_component = record {
  initiate_payment = mock_payment encode_uri_component;
  verify_by_tx_ref = mock_verify;
  verify_webhook_signature = mock_signature;
  initiate_bank_transfer = mock_bank_transfer;
  get_bank_transfer_status = mock_bank_status;
}
