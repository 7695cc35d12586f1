-- ===== src/Examples/Settings.antt =====
-- An environment for local work, and an error of the provider.
use Prim.Native.String.{◌++◌}
use prestohq_assessment.Prelude.{String, ◌≡◌, refl, false, inl, inr, none, some}
use prestohq_assessment.Config.{
  EnvironmentVariables, Constraint, is_enum, is_string, validate_env, validate_sync,
}
use prestohq_assessment.Http.Envelope.{text, has_field}
use prestohq_assessment.Http.Filter.{
  Thrown, app, one, thrown_status, catch_exception, server_errors-hidden,
}

abbrev local : EnvironmentVariables
local = record {
  node_env = none;
  port = some "3010";
  database_url = some "postgresql://localhost:5433/wallet";
  redis_url = none;
  redis_host = some "127.0.0.1";
  redis_port = some "6380";
  redis_password = none;
  redis_key_prefix = some "wallet-api:";
  jwt_secret = some "change-me";
  jwt_expires_in = some "7d";
  flutterwave_secret_key = some "";
  flutterwave_public_key = some "";
  flutterwave_webhook_secret = some "";
  flutterwave_redirect_url = none;
  flutterwave_mock = some "true";
  swagger_enabled = none;
}

abbrev explained : String → Constraint → String
explained name is_enum = name ++ " must be one of the following values"
explained name is_string = name ++ " must be a string"

-- What is not set gets its default.
local_accepted : validate_env explained local ≡ inl (record local { node_env = some "development" })
unfolding validate_env validate_sync
local_accepted = refl

-- Without a token secret the service does not start.
local_refused :
    validate_env explained (record local { jwt_secret = none })
    ≡ inr "Environment validation failed: JWT_SECRET must be a string"
unfolding validate_env validate_sync
local_refused = refl

abbrev gateway_failure : Thrown
gateway_failure = app (record {
  message = one "Payment provider is unavailable";
  status_code = 502;
  error_code = some "BAD_GATEWAY";
  payload = text "trace";
})

server_errors-hidden_example :
    (has_field "errorCode" (catch_exception "now" "/api/v1/transfers" gateway_failure).1 ≡ false)
    × (has_field "data" (catch_exception "now" "/api/v1/transfers" gateway_failure).1 ≡ false)
unfolding thrown_status
server_errors-hidden_example = server_errors-hidden "now" "/api/v1/transfers" gateway_failure refl
