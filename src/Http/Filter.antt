-- ===== src/Http/Filter.antt =====
-- src/common/filters/http-exception.filter.ts on whatever a request throws: the exceptions of
-- src/common/exceptions/custom-error.ts with everything they can carry, those of the framework, and values
-- that are no HTTP exceptions. The module Errors has the exceptions that the services throw.
use prestohq_assessment.Prelude.{
  ℕ, String, ◌≡◌, refl, false, Option, none, some, List, [], ◌∷◌, ltb, if◌then◌else◌, or_else,
  Bool-cases, inl, inr,
}
use prestohq_assessment.Flutterwave.Api.{given}
use prestohq_assessment.Errors.{
  Error, ErrorCode, bad_request, unauthorized, forbidden, not_found, conflict, unprocessable_entity,
  too_many_requests, bad_gateway, service_unavailable, internal_server_error, app_exception,
  wallet_missing, still_pending, unique_violation, out_of_range, record_missing,
  flutterwave_api_error, network_error, error_messages, error_status_codes, filter_status,
  filter_message, filter_error_code,
}
use prestohq_assessment.Http.Envelope.{
  Json, null, text, number, boolean, array, Items, no_items, item, Fields, no_fields, field,
  has_field, error_code_text, error_body,
}

-- `ErrorMessage`
pub data ErrorMessage : Type 0 where
  one : String → ErrorMessage
  several : List String → ErrorMessage

-- What `getResponse()` gives for an exception of the framework
pub data ExceptionResponse : Type 0 where
  plain_text : String → ExceptionResponse
  with_message : ErrorMessage → ExceptionResponse
  without_message : ExceptionResponse

-- The fields of `AppException`; `data` that is undefined is `null` here.
pub record AppExceptionFields : Type 0 where
  pub message : ErrorMessage
  pub status_code : ℕ
  pub error_code : Option String
  pub payload : Json

pub data Thrown : Type 0 where
  app : AppExceptionFields → Thrown
  http : ℕ → ExceptionResponse → Thrown
  other : Thrown

-- `build`
abbrev pub build_exception : ErrorCode → Option ErrorMessage → Json → Thrown
build_exception code message payload = app (record {
  message = or_else message (one (error_messages code));
  status_code = error_status_codes code;
  error_code = some (error_code_text code);
  payload = payload;
})

abbrev pub text_items : List String → Items
text_items [] = no_items
text_items (t ∷ ts) = item (text t) (text_items ts)

abbrev pub message_json : ErrorMessage → Json
message_json (one t) = text t
message_json (several ts) = array (text_items ts)

-- `resolveMessage` without a message of the exception's own
abbrev pub default_message : ℕ → ErrorMessage
default_message status =
    if ltb status 500 then one "Request failed" else one "Internal server error"

abbrev pub response_message : ExceptionResponse → ℕ → ErrorMessage
response_message (plain_text t) status = one t
response_message (with_message m) status = m
response_message without_message status = default_message status

-- `resolveMessage`
unfoldable pub resolve_message : Thrown → ℕ → ErrorMessage
resolve_message (app e) status = e.message
resolve_message (http _ response) status = response_message response status
resolve_message other status = default_message status

-- `exception.getStatus()`, or INTERNAL_SERVER_ERROR
unfoldable pub thrown_status : Thrown → ℕ
thrown_status (app e) = e.status_code
thrown_status (http status _) = status
thrown_status other = 500

abbrev pub optional_field : String → Option String → Fields → Fields
optional_field name none rest = rest
optional_field name (some t) rest = field name (text t) rest

abbrev pub data_field : Json → Fields
data_field null = no_fields
data_field v = field "data" v no_fields

-- The `errorCode` and the `data` of the answer
unfoldable pub details : Thrown → Fields
details (app e) =
    if ltb e.status_code 500
    then optional_field "errorCode" (given e.error_code) (data_field e.payload)
    else no_fields
details _ = no_fields

-- `catch`: the status of the answer and its body
unfoldable pub catch_exception : (now path : String) → Thrown → ℕ × Fields
catch_exception now path thrown =
    let status = thrown_status thrown in
    (
      status,
      field "success" (boolean false) (
          field "statusCode" (number status) (
            field "message" (message_json (resolve_message thrown status))
              (field "timestamp" (text now) (field "path" (text path) (details thrown))))),
    )

-- An error of the services as the filter gets it
abbrev pub thrown_of : Error → Thrown
thrown_of (app_exception e) = app (record {
  message = one e.message;
  status_code = e.status_code;
  error_code = some (error_code_text e.error_code);
  payload = null;
})
thrown_of _ = other

-- No code is the empty text, which the filter would leave out.
given-error_code_text :
    (code : ErrorCode) → given (some (error_code_text code)) ≡ some (error_code_text code)
unfolding given error_code_text
given-error_code_text bad_request = refl
given-error_code_text unauthorized = refl
given-error_code_text forbidden = refl
given-error_code_text not_found = refl
given-error_code_text conflict = refl
given-error_code_text unprocessable_entity = refl
given-error_code_text too_many_requests = refl
given-error_code_text bad_gateway = refl
given-error_code_text service_unavailable = refl
given-error_code_text internal_server_error = refl

-- The filter answers an error of the services with the status and the body that the model of the services
-- says.
pub catch_exception-thrown_of :
    (now path : String) (error : Error)
    → catch_exception now path (thrown_of error) ≡ (filter_status error, error_body now path error)
unfolding catch_exception error_body filter_status filter_message filter_error_code thrown_status
    resolve_message details
catch_exception-thrown_of now path (app_exception e) =
    let shown = given-error_code_text e.error_code in
    elim (Bool-cases (ltb e.status_code 500)) [
      | inl client ↦ rw (client, shown)
      | inr server ↦ rw server
    ]
catch_exception-thrown_of now path (wallet_missing id) = refl
catch_exception-thrown_of now path (still_pending id) = refl
catch_exception-thrown_of now path unique_violation = refl
catch_exception-thrown_of now path out_of_range = refl
catch_exception-thrown_of now path record_missing = refl
catch_exception-thrown_of now path (flutterwave_api_error t) = refl
catch_exception-thrown_of now path network_error = refl

-- The body of an answer says nothing about a server error but its message: neither its code nor its data
-- are in it, whatever was thrown.
pub server_errors-hidden :
    (now path : String) (thrown : Thrown)
    → ltb (thrown_status thrown) 500 ≡ false
    → (has_field "errorCode" (catch_exception now path thrown).1 ≡ false)
      × (has_field "data" (catch_exception now path thrown).1 ≡ false)
unfolding catch_exception thrown_status details has_field
server_errors-hidden now path (app e) server = rw server (refl, refl)
server_errors-hidden now path (http status response) server = (refl, refl)
server_errors-hidden now path other server = (refl, refl)
