-- ===== src/Config.antt =====
-- The settings of the service: src/config/env.validation.ts and src/config/configuration.ts read the
-- environment, src/core/security/security.module.ts, src/core/queue/queue.module.ts and
-- src/config/swagger.config.ts use the settings. A variable is a text or not set. `Number(text)` and its
-- tests are parameters, and so are the texts in which the validation library explains a refusal.
use Prim.Native.String.{◌++◌}
use prestohq_assessment.Prelude.{
  ℕ, String, Bool, false, true, not, ◌&&◌, ◌||◌, Option, none, some, ◌⊎◌, inl, inr, List, [], ◌∷◌,
  map, if◌then◌else◌, or_else, is_some,
}
use prestohq_assessment.Flutterwave.Api.{FlutterwaveConfig, given, is_text}
use prestohq_assessment.Config.Redis.{
  RedisConnectionInput, RedisConnection, build_redis_connection_settings,
}
pub mod Redis
pub mod Starting

-- The fields of `EnvironmentVariables`, which are the variables that `configuration` reads
pub record EnvironmentVariables : Type 0 where
  pub node_env : Option String
  pub port : Option String
  pub database_url : Option String
  pub redis_url : Option String
  pub redis_host : Option String
  pub redis_port : Option String
  pub redis_password : Option String
  pub redis_key_prefix : Option String
  pub jwt_secret : Option String
  pub jwt_expires_in : Option String
  pub flutterwave_secret_key : Option String
  pub flutterwave_public_key : Option String
  pub flutterwave_webhook_secret : Option String
  pub flutterwave_redirect_url : Option String
  pub flutterwave_mock : Option String
  pub swagger_enabled : Option String

-- What the decorators of a field ask for
pub data Constraint : Type 0 where
  is_enum is_string : Constraint

-- The library's message for a field and what it fails
abbrev pub Explain : Type 0
Explain = String → Constraint → String

abbrev pub violation :
    Bool → String → Constraint → List (String × Constraint) → List (String × Constraint)
violation holds name c rest = if holds then rest else (name, c) ∷ rest

-- `@IsEnum(Environment)`
abbrev pub is_environment : Option String → Bool
is_environment t = is_text t "development" || is_text t "production" || is_text t "test"

-- `plainToInstance`: a field with a value of its own keeps that where nothing is set.
abbrev pub to_instance : EnvironmentVariables → EnvironmentVariables
to_instance vars = record vars { node_env = some (or_else vars.node_env "development") }

abbrev pub join : (separator : String) → List String → String
join separator [] = ""
join separator (t ∷ []) = t
join separator (t ∷ u ∷ rest) = t ++ separator ++ join separator (u ∷ rest)

-- `validateSync`: the fields without `@IsOptional`; an optional variable is a text where it is set.
unfoldable pub validate_sync : EnvironmentVariables → List (String × Constraint)
validate_sync v = violation (is_environment v.node_env) "NODE_ENV" is_enum (
    violation (is_some v.database_url) "DATABASE_URL" is_string
      (violation (is_some v.jwt_secret) "JWT_SECRET" is_string []))

-- `validateEnv`: the instance, or the text of the error that stops the start of the service
unfoldable pub validate_env : Explain → EnvironmentVariables → EnvironmentVariables ⊎ String
validate_env explain vars =
    let validated = to_instance vars in
    elim (validate_sync validated) [
      | [] ↦ inl validated
      | (name, c) ∷ rest ↦ inr (
          "Environment validation failed: "
          ++ join "; " (map (λ e. explain e.0 e.1) ((name, c) ∷ rest)))
    ]

-- `Number(text)` and the tests of its value
pub record JsNumbers : Type 1 where
  pub Number : Type 0
  pub number : Option String → Number
  pub of_integer : ℕ → Number
  pub is_finite : Number → Bool
  pub is_positive : Number → Bool

-- `parsePort`
abbrev pub parse_port : (n : JsNumbers) → Option String → (fallback : n.Number) → n.Number
parse_port n value fallback =
    let port = n.number value in if n.is_finite port && n.is_positive port then port else fallback

pub record RedisSettings (Number : Type 0) : Type 0 where
  pub url : Option String
  pub host : Option String
  pub port : Option Number
  pub password : Option String
  pub key_prefix : String

pub record JwtSettings : Type 0 where
  pub secret : Option String
  pub expires_in : String

pub record Configuration (Number : Type 0) : Type 0 where
  pub node_env : String
  pub port : Number
  pub database_url : Option String
  pub redis : RedisSettings Number
  pub jwt : JwtSettings
  pub public_key : Option String
  pub redirect_url : String
  pub flutterwave : FlutterwaveConfig

-- `process.env.REDIS_PORT ? Number(process.env.REDIS_PORT) : undefined`
abbrev pub number_given : (n : JsNumbers) → Option String → Option n.Number
number_given n none = none
number_given n (some t) = some (n.number (some t))

-- The settings that `load: [configuration]` makes of the environment
unfoldable pub configuration : (n : JsNumbers) → EnvironmentVariables → Configuration n.Number
configuration n env = record {
  node_env = or_else env.node_env "development";
  port = n.number (some (or_else env.port "3000"));
  database_url = env.database_url;
  redis = record {
    url = env.redis_url;
    host = env.redis_host;
    port = number_given n (given env.redis_port);
    password = given env.redis_password;
    key_prefix = or_else env.redis_key_prefix "wallet-api:";
  };
  jwt = record { secret = env.jwt_secret; expires_in = or_else env.jwt_expires_in "7d" };
  public_key = env.flutterwave_public_key;
  redirect_url = or_else env.flutterwave_redirect_url "http://localhost:3010/funding/callback";
  flutterwave = record {
    secret_key = env.flutterwave_secret_key;
    webhook_secret = env.flutterwave_webhook_secret;
    mock = or_else env.flutterwave_mock "false";
  };
}

-- The options of the token library; nothing where `getOrThrow` throws.
abbrev pub jwt_options : {Number : Type 0} → Configuration Number → Option (String × String)
jwt_options c = elim c.jwt.secret [ none ↦ none | some secret ↦ some (secret, c.jwt.expires_in) ]

-- `forRootAsync`: the connection of the queues and the prefix of their keys
abbrev pub queue_options :
    (n : JsNumbers) → Configuration n.Number → RedisConnection n.Number × String
queue_options n c = (
  build_redis_connection_settings (n.of_integer 6379) (record {
    url = c.redis.url;
    host = c.redis.host;
    port = c.redis.port;
    password = c.redis.password;
    max_retries_per_request = none;
    lazy_connect = some false;
    command_timeout = some none;
  }),
  c.redis.key_prefix ++ "bull:",
)

-- `isSwaggerEnabled`
unfoldable pub is_swagger_enabled : EnvironmentVariables → Bool
is_swagger_enabled env =
    not (is_text env.node_env "production") || is_text env.swagger_enabled "true"
