-- ===== src/Config/Redis.antt =====
-- src/core/redis/redis-connection.util.ts. An object that is made field by field is a record here, with
-- nothing for a field that is not set. `null` is nothing, too, inside the fields that can be null.
use prestohq_assessment.Prelude.{ℕ, String, ◌≡◌, Bool, false, Option, none, some, or_else}
use prestohq_assessment.Prelude.Text.{trim}
use prestohq_assessment.Flutterwave.Api.{given}

pub record RedisConnectionInput (Number : Type 0) : Type 0 where
  pub url : Option String
  pub host : Option String
  pub port : Option Number
  pub password : Option String
  pub max_retries_per_request : Option ℕ
  pub lazy_connect : Option Bool
  pub command_timeout : Option (Option ℕ)

pub record RedisConnection (Number : Type 0) : Type 0 where
  pub url : Option String
  pub host : Option String
  pub port : Option Number
  pub password : Option String
  pub max_retries_per_request : Option ℕ
  pub lazy_connect : Bool
  pub command_timeout : Option (Option ℕ)

-- `input.url?.trim()`, nothing where it is empty
abbrev pub trimmed : Option String → Option String
trimmed none = none
trimmed (some t) = given (some (trim t))

module _ {Number : Type 0} (default_port : Number) where
  abbrev pub redis_by : Option String → RedisConnectionInput Number → RedisConnection Number
  redis_by (some url) input = record {
    url = some url;
    host = none;
    port = none;
    password = none;
    max_retries_per_request = input.max_retries_per_request;
    lazy_connect = or_else input.lazy_connect false;
    command_timeout = input.command_timeout;
  }
  redis_by none input = record {
    url = none;
    host = some (or_else input.host "127.0.0.1");
    port = some (or_else input.port default_port);
    password = given input.password;
    max_retries_per_request = input.max_retries_per_request;
    lazy_connect = or_else input.lazy_connect false;
    command_timeout = input.command_timeout;
  }

  -- `buildRedisConnectionSettings`, with 6379 as a number of the language
  unfoldable pub build_redis_connection_settings :
      RedisConnectionInput Number → RedisConnection Number
  build_redis_connection_settings input = redis_by (trimmed input.url) input

-- A URL overrides the host, the port and the password.
pub url_overrides :
    {Number : Type 0} (default_port : Number) (input other : RedisConnectionInput Number)
    (url : String)
    → trimmed input.url ≡ some url
    → trimmed other.url ≡ some url
    → input.max_retries_per_request ≡ other.max_retries_per_request
    → input.lazy_connect ≡ other.lazy_connect
    → input.command_timeout ≡ other.command_timeout
    → build_redis_connection_settings default_port input
      ≡ build_redis_connection_settings default_port other
unfolding build_redis_connection_settings
url_overrides default_port input other url here there retries lazy timeout =
    rw (here, there, retries, lazy, timeout)
