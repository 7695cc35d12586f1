-- ===== src/Http/Envelope.antt =====
-- The form of every JSON answer: src/common/handlers/response-handler.ts and
-- src/common/interceptors/transform-response.interceptor.ts for what a route returns, and the body that
-- src/common/filters/http-exception.filter.ts writes for what it throws. An object is the list of its
-- fields, each name once; the time stamp is an argument.
use prestohq_assessment.Prelude.{
  ℕ, String, ◌≡◌, refl, ap, Bool, true, false, ◌&&◌, Option, none, some, ltb, str_eq, if◌then◌else◌,
  arith,
}
use package.text.Mathlib.TextEquality.{eq_iff}
use prestohq_assessment.Errors.{
  Error, ErrorCode, bad_request, unauthorized, forbidden, not_found, conflict, unprocessable_entity,
  too_many_requests, bad_gateway, service_unavailable, internal_server_error, app_exception,
  wallet_missing, still_pending, unique_violation, out_of_range, record_missing,
  flutterwave_api_error, network_error, filter_status, filter_message, filter_error_code,
}

-- The values that routes return: `undefined` and null are the same to this code.
mutual
  pub data Json : Type 0 where
    null : Json
    text : String → Json
    number : ℕ → Json
    boolean : Bool → Json
    array : Items → Json
    object : Fields → Json

  pub data Items : Type 0 where
    no_items : Items
    item : Json → Items → Items

  pub data Fields : Type 0 where
    no_fields : Fields
    field : String → Json → Fields → Fields

unfoldable pub get_field : String → Fields → Option Json
get_field k no_fields = none
get_field k (field name v rest) = if str_eq name k then some v else get_field k rest

unfoldable pub has_field : String → Fields → Bool
has_field k no_fields = false
has_field k (field name v rest) = if str_eq name k then true else has_field k rest

-- `{ [name]: _, ...rest }`
unfoldable pub without_field : String → Fields → Fields
without_field k no_fields = no_fields
without_field k (field name v rest) =
    let others = without_field k rest in if str_eq name k then others else field name v others

abbrev pub or_empty : Option Json → Json
or_empty none = text ""
or_empty (some null) = text ""
or_empty (some v) = v

-- `if (typeof accessToken === 'string')`
abbrev pub token_fields : Option Json → Fields
token_fields (some (text token)) = field "accessToken" (text token) no_fields
token_fields _ = no_fields

-- `ApiSuccessResponse`, in the order in which its fields are set
abbrev pub success_fields : (now : String) → ℕ → Json → Json → Fields → Fields
success_fields now status message value more = field "statusCode" (number status) (
    field "status" (text "success") (
      field "message" message
        (field "data" value (field "meta" (object (field "timestamp" (text now) no_fields)) more))))

-- `const { message, accessToken, ...data } = record`: what is left in `data`
abbrev pub rest_fields : Fields → Fields
rest_fields fields = without_field "accessToken" (without_field "message" fields)

-- `buildSuccessResponse`
unfoldable pub build_success_response : (now : String) → ℕ → Json → Json
build_success_response now status null =
    object (success_fields now status (text "") (object no_fields) no_fields)
build_success_response now status (object fields) = object (
    success_fields now status (or_empty (get_field "message" fields)) (object (rest_fields fields))
      (token_fields (get_field "accessToken" fields)))
build_success_response now status payload =
    object
      (success_fields now status (text "") (object (field "result" payload no_fields)) no_fields)

-- The test of the interceptor for an answer that has its form already
unfoldable pub is_envelope : Json → Bool
is_envelope (object fields) =
    has_field "statusCode" fields
    && has_field "status" fields
    && has_field "data" fields
    && has_field "meta" fields
is_envelope _ = false

-- `TransformResponseInterceptor.intercept`, on the value that the route returns
unfoldable pub intercept : (skip : Bool) → (now : String) → ℕ → Json → Json
intercept skip now status value =
    if skip
    then value
    else if is_envelope value
    then value
    else build_success_response now status value

build-is_envelope :
    (now : String) (status : ℕ) (value : Json)
    → is_envelope (build_success_response now status value) ≡ true
unfolding build_success_response is_envelope has_field
build-is_envelope now status null = refl
build-is_envelope now status (text t) = refl
build-is_envelope now status (number n) = refl
build-is_envelope now status (boolean b) = refl
build-is_envelope now status (array xs) = refl
build-is_envelope now status (object fs) = refl

-- What the interceptor has given its form, it leaves as it is.
pub intercept-intercept :
    (now later : String) (status other : ℕ) (value : Json)
    → intercept false later other (intercept false now status value)
      ≡ intercept false now status value
unfolding intercept
intercept-intercept now later status other value =
    ground (arith, build-is_envelope now status value)

-- A name that is taken out is gone, and every other field keeps its value.
has_field-without_field :
    (k : String) (fields : Fields) → has_field k (without_field k fields) ≡ false
unfolding has_field without_field
has_field-without_field k no_fields = refl
has_field-without_field k (field name v rest) = ground (arith, has_field-without_field k rest)

test_as : (other name k : String) → str_eq other name ≡ true → str_eq other k ≡ str_eq name k
test_as other name k same = ap (λ t. str_eq t k) ((eq_iff other name).0 same)

get_field-without_field :
    (k name : String) (fields : Fields)
    → str_eq name k ≡ false
    → get_field k (without_field name fields) ≡ get_field k fields
unfolding get_field without_field
get_field-without_field k name no_fields ne = refl
get_field-without_field k name (field other v rest) ne =
    ground (arith, test_as other name k, get_field-without_field k name rest ne)

-- The fields of the object in a field of an answer
abbrev pub fields_at : String → Json → Fields
fields_at k (object fields) = elim (get_field k fields) [
  | some (object inner) ↦ inner
  | _ ↦ no_fields
]
fields_at k _ = no_fields

-- Every field of the object that a route returns, other than its message and its access token, stands
-- in the `data` of the answer with its value, unless the object has the form of an answer already.
pub intercept-keeps :
    (now : String) (status : ℕ) (payload : Fields) (k : String)
    → is_envelope (object payload) ≡ false
    → str_eq "message" k ≡ false
    → str_eq "accessToken" k ≡ false
    → get_field k (fields_at "data" (intercept false now status (object payload)))
      ≡ get_field k payload
unfolding intercept build_success_response get_field
intercept-keeps now status payload k plain not_message not_token = ground (
  arith,
  plain,
  get_field-without_field k "accessToken" (without_field "message" payload) not_token,
  get_field-without_field k "message" payload not_message,
)

-- The values of `ErrorCode`
unfoldable pub error_code_text : ErrorCode → String
error_code_text bad_request = "BAD_REQUEST"
error_code_text unauthorized = "UNAUTHORIZED"
error_code_text forbidden = "FORBIDDEN"
error_code_text not_found = "NOT_FOUND"
error_code_text conflict = "CONFLICT"
error_code_text unprocessable_entity = "UNPROCESSABLE_ENTITY"
error_code_text too_many_requests = "TOO_MANY_REQUESTS"
error_code_text bad_gateway = "BAD_GATEWAY"
error_code_text service_unavailable = "SERVICE_UNAVAILABLE"
error_code_text internal_server_error = "INTERNAL_SERVER_ERROR"

abbrev pub code_fields : Option ErrorCode → Fields
code_fields none = no_fields
code_fields (some code) = field "errorCode" (text (error_code_text code)) no_fields

-- `AllExceptionsFilter.catch`: the body of the answer to an error. No error of the services has `data`.
unfoldable pub error_body : (now path : String) → Error → Fields
error_body now path error = field "success" (boolean false) (
    field "statusCode" (number (filter_status error)) (
      field "message" (text (filter_message error)) (
        field "timestamp" (text now)
          (field "path" (text path) (code_fields (filter_error_code error))))))

-- The answer to a server error has no error code.
server_errors_hide_code :
    (now path : String) (error : Error)
    → ltb (filter_status error) 500 ≡ false
    → has_field "errorCode" (error_body now path error) ≡ false
unfolding error_body has_field filter_status filter_error_code
server_errors_hide_code now path (app_exception e) server = ground (arith, server)
server_errors_hide_code now path (wallet_missing id) server = refl
server_errors_hide_code now path (still_pending id) server = refl
server_errors_hide_code now path unique_violation server = refl
server_errors_hide_code now path out_of_range server = refl
server_errors_hide_code now path record_missing server = refl
server_errors_hide_code now path (flutterwave_api_error t) server = refl
server_errors_hide_code now path network_error server = refl
