-- ===== src/Flutterwave/Api.antt =====
-- flutterwave-api.types.ts and flutterwave-api.service.ts of
-- src/common/services-external/flutterwave. What the web service answers is a parameter; an answer has
-- the fields that the source's types give it.
use Prim.Native.String.{◌++◌}
use prestohq_assessment.Prelude.{
  ℕ, String, Bool, false, not, ◌||◌, Option, none, some, str_eq, if◌then◌else◌, or_else, is_some,
}
use prestohq_assessment.Prelude.Text.{truthy, decimal}
use prestohq_assessment.Errors.{flutterwave_api_error, network_error}
use prestohq_assessment.Exec.{Result, ok, err}

pub record FlwPaymentInitRequest (Number : Type 0) : Type 0 where
  pub tx_ref : String
  pub amount : Number
  pub currency : String
  pub redirect_url : String
  pub customer_email : String
  pub customer_name : String
  pub title : String
  pub description : String

-- number | string
pub data FlwId : Type 0 where
  number_id : ℕ → FlwId
  text_id : String → FlwId

-- id.toString()
abbrev pub id_to_string : FlwId → String
id_to_string (number_id n) = decimal n
id_to_string (text_id t) = t

-- `data` of the answers is `body` here.
pub record FlwPaymentInitData : Type 0 where
  pub link : Option String
  pub id : Option FlwId

pub record FlwPaymentInitResponse : Type 0 where
  pub status : Option String
  pub message : Option String
  pub body : Option FlwPaymentInitData

pub record FlwVerifyData (Number : Type 0) : Type 0 where
  pub status : Option String
  pub amount : Option Number
  pub currency : Option String
  pub tx_ref : Option String
  pub id : Option FlwId

pub record FlwVerifyByRefResponse (Number : Type 0) : Type 0 where
  pub status : Option String
  pub message : Option String
  pub body : Option (FlwVerifyData Number)

pub record FlwTransferInitRequest (Number : Type 0) : Type 0 where
  pub account_bank : String
  pub account_number : String
  pub amount : Number
  pub currency : String
  pub narration : String
  pub reference : String

pub record FlwTransferData : Type 0 where
  pub id : Option FlwId
  pub status : Option String

-- `FlwTransferInitResponse` and `FlwTransferStatusResponse`, which have the same fields
pub record FlwTransferResponse : Type 0 where
  pub status : Option String
  pub message : Option String
  pub body : Option FlwTransferData

-- An HTTP answer: whether its status is one of success, and its body
pub record HttpResponse (A : Type 0) : Type 0 where
  pub is_ok : Bool
  pub json : A

-- `fetch` to an address with an Authorization header, and `response.json()`: nothing when there is no
-- answer, or one that is no JSON.
pub record WebService (Number : Type 0) : Type 0 where
  pub post_payment :
      (url authorization : String)
      → FlwPaymentInitRequest Number
      → Option (HttpResponse FlwPaymentInitResponse)
  pub get_verification :
      (url authorization : String) → Option (HttpResponse (FlwVerifyByRefResponse Number))
  pub post_transfer :
      (url authorization : String)
      → FlwTransferInitRequest Number
      → Option (HttpResponse FlwTransferResponse)
  pub get_transfer : (url authorization : String) → Option (HttpResponse FlwTransferResponse)
  pub encode_uri_component : String → String

-- The settings `flutterwave.secretKey`, `flutterwave.webhookSecret` and `flutterwave.mock`
pub record FlutterwaveConfig : Type 0 where
  pub secret_key : Option String
  pub webhook_secret : Option String
  pub mock : String

abbrev pub flw_base : String
flw_base = "https://api.flutterwave.com/v3"

-- A text that is there and not empty
unfoldable pub given : Option String → Option String
given none = none
given (some t) = if truthy t then some t else none

-- Sequencing of calls that may throw
abbrev pub then_ok : {A B : Type 0} → Result A → (A → Result B) → Result B
then_ok (ok a) f = f a
then_ok (err e) f = err e

abbrev pub answered : {A : Type 0} → Option A → Result A
answered none = err network_error
answered (some a) = ok a

abbrev pub required : Option String → Result String
required none = err (flutterwave_api_error "Flutterwave is not configured (FLUTTERWAVE_SECRET_KEY)")
required (some secret) = ok secret

-- `requireSecret`
unfoldable pub require_secret : FlutterwaveConfig → Result String
require_secret config = required (given config.secret_key)

-- s === t, for a text that may be missing
abbrev pub is_text : Option String → String → Bool
is_text none t = false
is_text (some s) t = str_eq s t

abbrev pub link_of : FlwPaymentInitResponse → Option String
link_of r = elim r.body [ none ↦ none | some d ↦ given d.link ]

abbrev pub accept_payment : HttpResponse FlwPaymentInitResponse → Result FlwPaymentInitResponse
accept_payment response =
    if not response.is_ok
      || not (is_text response.json.status "success")
      || not (is_some (link_of response.json))
    then err (
        flutterwave_api_error
          (or_else response.json.message "Failed to initiate Flutterwave payment"))
    else ok response.json

module _ {Number : Type 0} (config : FlutterwaveConfig) (web : WebService Number) where
  -- `initiatePayment`
  unfoldable pub api_initiate_payment : FlwPaymentInitRequest Number → Result FlwPaymentInitResponse
  api_initiate_payment body = then_ok (require_secret config) (λ secret.
      then_ok (answered (web.post_payment (flw_base ++ "/payments") ("Bearer " ++ secret) body))
        accept_payment)

  -- `verifyTransactionByReference`
  unfoldable pub verify_transaction_by_reference : String → Result (FlwVerifyByRefResponse Number)
  verify_transaction_by_reference tx_ref = then_ok (require_secret config) (λ secret.
      then_ok
        (answered (
          web.get_verification
            (flw_base
              ++ "/transactions/verify_by_reference?tx_ref="
              ++ web.encode_uri_component tx_ref)
            ("Bearer " ++ secret)))
        (λ response. ok response.json))

  -- `initiateTransfer`
  unfoldable pub initiate_transfer :
      FlwTransferInitRequest Number → Result (HttpResponse FlwTransferResponse)
  initiate_transfer body =
      then_ok (require_secret config) (λ secret.
        answered (web.post_transfer (flw_base ++ "/transfers") ("Bearer " ++ secret) body))

  -- `getTransfer`
  unfoldable pub get_transfer_by_id : String → Result (HttpResponse FlwTransferResponse)
  get_transfer_by_id transfer_id = then_ok (require_secret config) (λ secret.
      answered (web.get_transfer (flw_base ++ "/transfers/" ++ transfer_id) ("Bearer " ++ secret)))

-- a || b
abbrev pub first_given : Option String → Option String → Option String
first_given (some a) b = some a
first_given none b = b

abbrev pub webhook_key : FlutterwaveConfig → Option String
webhook_key config = first_given (given config.webhook_secret) (given config.secret_key)

abbrev pub same_hash : Option String → Option String → Bool
same_hash none header = false
same_hash (some secret) none = false
same_hash (some secret) (some header) = str_eq secret header

-- `verifyWebhookHash`
unfoldable pub verify_webhook_hash : FlutterwaveConfig → Option String → Bool
verify_webhook_hash config header = same_hash (webhook_key config) (given header)
