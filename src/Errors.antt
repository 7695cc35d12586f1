-- ===== src/Errors.antt =====
-- The exceptions of src/common/exceptions/custom-error.ts, the plain errors that the repositories and
-- workers throw, and what src/common/filters/http-exception.filter.ts answers for each.
use Prim.Native.String.{◌++◌}
use prestohq_assessment.Prelude.{ℕ, String, Option, none, some, ltb, if◌then◌else◌, or_else}

pub data ErrorCode : Type 0 where
  bad_request unauthorized forbidden not_found conflict unprocessable_entity : ErrorCode
  too_many_requests bad_gateway service_unavailable internal_server_error : ErrorCode

unfoldable pub error_messages : ErrorCode → String
error_messages bad_request = "Bad Request"
error_messages unauthorized = "Unauthorized"
error_messages forbidden = "Forbidden"
error_messages not_found = "Not Found"
error_messages conflict = "Conflict"
error_messages unprocessable_entity = "Unprocessable Entity"
error_messages too_many_requests = "Too Many Requests"
error_messages bad_gateway = "Bad Gateway"
error_messages service_unavailable = "Service Unavailable"
error_messages internal_server_error = "Internal Server Error"

unfoldable pub error_status_codes : ErrorCode → ℕ
error_status_codes bad_request = 400
error_status_codes unauthorized = 401
error_status_codes forbidden = 403
error_status_codes not_found = 404
error_status_codes conflict = 409
error_status_codes unprocessable_entity = 422
error_status_codes too_many_requests = 429
error_status_codes bad_gateway = 502
error_status_codes service_unavailable = 503
error_status_codes internal_server_error = 500

pub record AppException : Type 0 where
  pub message : String
  pub status_code : ℕ
  pub error_code : ErrorCode

-- What a call can throw. After `app_exception` come `new Error('Wallet not found: <id>')` of the row
-- lock, the settle worker's `new Error('Bank transfer still pending: <id>')`, the three refusals of
-- the database client (a unique column that is taken, a number that an INT4 column cannot hold, an
-- update of a row that is not there), the raw HTTP client's FlutterwaveApiError, and a request to
-- the provider that never got an answer.
pub data Error : Type 0 where
  app_exception : AppException → Error
  wallet_missing still_pending : String → Error
  unique_violation out_of_range record_missing : Error
  flutterwave_api_error : String → Error
  network_error : Error

-- `build`, without the `data` argument that no caller gives.
unfoldable pub build : ErrorCode → Option String → Error
unfolding error_messages error_status_codes
build code text = app_exception (record {
  message = or_else text (error_messages code);
  status_code = error_status_codes code;
  error_code = code;
})

-- `customError.<name>(message)`, named by the code.
abbrev pub custom_error : ErrorCode → String → Error
custom_error code text = build code (some text)

-- `exception.getStatus()` in the filter, 500 for what is no HttpException.
unfoldable pub filter_status : Error → ℕ
filter_status (app_exception e) = e.status_code
filter_status _ = 500

-- `resolveMessage`
unfoldable pub filter_message : Error → String
filter_message (app_exception e) = e.message
filter_message _ = "Internal server error"

-- The `errorCode` of the response body, which server errors leave out.
unfoldable pub filter_error_code : Error → Option ErrorCode
filter_error_code (app_exception e) = if ltb e.status_code 500 then some e.error_code else none
filter_error_code _ = none

-- `error.message`. Of the client's own errors the source reads no more than that they are not the
-- row lock's.
unfoldable pub error_message : Error → String
error_message (app_exception e) = e.message
error_message (wallet_missing id) = "Wallet not found: " ++ id
error_message (still_pending id) = "Bank transfer still pending: " ++ id
error_message unique_violation = "Unique constraint failed"
error_message out_of_range = "Unable to fit integer value into an INT4"
error_message record_missing = "No record was found for an update"
error_message (flutterwave_api_error text) = text
error_message network_error = "fetch failed"
