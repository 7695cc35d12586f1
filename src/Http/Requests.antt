-- ===== src/Http/Requests.antt =====
-- What the validation of requests accepts, by the decorators of src/modules/*/dto, and the idempotency header
-- of src/common/utils/idempotency.ts. The tests for e-mail addresses and UUIDs are the validator's, which
-- are parameters; a request has the types of its class.
use Prim.Native.Char.{code}
use prestohq_assessment.Prelude.{
  ℕ, ◌+◌, String, ◌≡◌, Bool, true, not, ◌&&◌, ◌||◌, Option, none, some, List, [], ◌∷◌, leb, ◌==◌,
  or_else, if◌then◌else◌, arith,
}
use prestohq_assessment.Prelude.Text.{trim, truthy}
use prestohq_assessment.Errors.{custom_error, bad_request}
use prestohq_assessment.Db.{WithdrawalDestinationType, to_wallet, to_bank}
use prestohq_assessment.Exec.{Action, Result, ok, err, lift, ◌>>=◌, Response}
use prestohq_assessment.Environment.{Environment, Actor}
use prestohq_assessment.Auth.{RegisterDto, LoginDto, CreatePinDto}
use prestohq_assessment.Provider.{FlutterwaveProvider}
use prestohq_assessment.Transfers.{CreateTransferDto, TransferView}
use prestohq_assessment.Transfers
use prestohq_assessment.Withdrawals.{CreateWithdrawalDto, WithdrawalView}
use prestohq_assessment.Withdrawals
use prestohq_assessment.WalletReads.{page_limit}

unfoldable pub text_length : String → ℕ
text_length String.[] = 0
text_length (String.◌∷◌ c s) = text_length s + 1

unfoldable pub all_chars : (ℕ → Bool) → String → Bool
all_chars p String.[] = true
all_chars p (String.◌∷◌ c s) = p (code c) && all_chars p s

abbrev pub is_digit : ℕ → Bool
is_digit c = leb b'0' c && leb c b'9'

-- [a-zA-Z0-9_]
abbrev pub is_word : ℕ → Bool
is_word c = (leb b'a' c && leb c b'z') || (leb b'A' c && leb c b'Z') || is_digit c || c == b'_'

abbrev pub within : ℕ → ℕ → ℕ → Bool
within low high n = leb low n && leb n high

-- /^\d{n}$/
abbrev pub digits : ℕ → String → Bool
digits n s = text_length s == n && all_chars is_digit s

-- `@IsOptional()`: a test of a field that may be missing
abbrev pub if_given : {A : Type 0} → (A → Bool) → Option A → Bool
if_given p none = true
if_given p (some a) = p a

-- `RegisterDto`
unfoldable pub accepts_register : (is_email : String → Bool) → RegisterDto → Bool
accepts_register is_email dto =
    is_email dto.email
    && within 3 32 (text_length dto.username)
    && all_chars is_word dto.username
    && within 1 50 (text_length dto.first_name)
    && within 1 50 (text_length dto.last_name)
    && within 8 128 (text_length dto.password)
    && within 8 128 (text_length dto.confirm_password)

-- `LoginDto`
unfoldable pub accepts_login : (is_email : String → Bool) → LoginDto → Bool
accepts_login is_email dto = is_email dto.email && leb 1 (text_length dto.password)

-- `CreatePinDto`
unfoldable pub accepts_create_pin : CreatePinDto → Bool
accepts_create_pin dto =
    digits 4 dto.pin && digits 4 dto.confirm_pin && within 8 128 (text_length dto.password)

-- `CreateTransferDto`
unfoldable pub accepts_transfer : CreateTransferDto → Bool
accepts_transfer dto = within 100 5000000000 dto.amount && digits 4 dto.pin

-- The fields that belong to the destination; those of the other one are not looked at.
abbrev pub accepts_destination : WithdrawalDestinationType → CreateWithdrawalDto → Bool
accepts_destination to_wallet dto = if_given (λ u. leb 3 (text_length u)) dto.recipient_username
accepts_destination to_bank dto =
    if_given (digits 3) dto.bank_code
    && if_given (λ n. text_length n == 10) dto.account_number
    && if_given (λ n. within 2 120 (text_length n)) dto.account_name

-- `CreateWithdrawalDto`
unfoldable pub accepts_withdrawal : CreateWithdrawalDto → Bool
accepts_withdrawal dto =
    accepts_destination dto.destination_type dto
    && within 1 5000000000 dto.amount
    && digits 4 dto.pin

-- `ListWalletTransactionsQueryDto`
unfoldable pub accepts_limit : Option ℕ → Bool
accepts_limit limit = if_given (within 1 100) limit

-- A limit that validation accepts is the limit that the listing uses, and 20 if there is none.
pub page_limit-accepted :
    (limit : Option ℕ) → accepts_limit limit ≡ true → page_limit limit ≡ or_else limit 20
unfolding accepts_limit page_limit
page_limit-accepted none fits = ground arith
page_limit-accepted (some n) fits = ground (arith, fits)

-- string | string[] | undefined
pub data HeaderValue : Type 0 where
  missing : HeaderValue
  single : String → HeaderValue
  repeated : List String → HeaderValue

abbrev pub first_value : HeaderValue → Option String
first_value missing = none
first_value (single t) = some t
first_value (repeated []) = none
first_value (repeated (t ∷ ts)) = some t

abbrev pub check_key : (is_uuid : String → Bool) → String → Result String
check_key is_uuid key =
    if not (truthy key)
    then err (custom_error bad_request "Idempotency-Key header is required")
    else if is_uuid key
    then ok key
    else err (custom_error bad_request "Idempotency-Key must be a UUID v4")

-- `requireIdempotencyKey`
unfoldable pub require_idempotency_key : (is_uuid : String → Bool) → HeaderValue → Result String
require_idempotency_key is_uuid header = elim (first_value header) [
  | none ↦ err (custom_error bad_request "Idempotency-Key header is required")
  | some raw ↦ check_key is_uuid (trim raw)
]

-- `WithdrawalsController.create`, behind validation
unfoldable pub withdrawals_route :
    (is_uuid : String → Bool)
    → Environment
    → Actor
    → CreateWithdrawalDto
    → HeaderValue
    → Action (Response WithdrawalView)
withdrawals_route is_uuid env actor dto header = do
  key ← lift (require_idempotency_key is_uuid header)
  Withdrawals.create env actor dto key

-- `TransfersController.create`, behind validation
unfoldable pub transfers_route :
    (is_uuid : String → Bool)
    → Environment
    → FlutterwaveProvider
    → Actor
    → CreateTransferDto
    → HeaderValue
    → Action (Response TransferView)
transfers_route is_uuid env flutterwave actor dto header = do
  key ← lift (require_idempotency_key is_uuid header)
  Transfers.create env flutterwave actor dto key
