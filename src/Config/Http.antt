-- ===== src/Config/Http.antt =====
-- config.rs: the HTTP settings.
use epay_sdk_rust.Common.{ℕ, ◌*◌, Bool, false, Option, none, some, ◌==◌, if◌then◌else◌}
use epay_sdk_rust.Text.{codes}
use epay_sdk_rust.Error.{Error, Result, ok, err}
use epay_sdk_rust.Config.Retry.{Duration, second, RetryPolicy, no_retries}

pub record HttpConfig : Type 0 where
  pub timeout : Duration
  pub connect_timeout : Option Duration
  pub max_response_body_bytes : ℕ
  pub retry : RetryPolicy

abbrev pub default_timeout : Duration
default_timeout = 30 * second

abbrev pub default_max_response_body_bytes : ℕ
default_max_response_body_bytes = 1024 * 1024

-- `HttpConfig::new`
unfoldable pub new : Duration → ℕ → Result HttpConfig
new timeout limit =
    if timeout == 0
    then err (Error.config (codes "timeout must be greater than 0"))
    else if limit == 0
    then err (Error.config (codes "max response body size must be greater than 0"))
    else ok (record {
      timeout = timeout;
      connect_timeout = none;
      max_response_body_bytes = limit;
      retry = no_retries;
    })

-- `HttpConfig::with_retry`
unfoldable pub with_retry : HttpConfig → RetryPolicy → HttpConfig
with_retry http retry = record http { retry = retry }

abbrev is_zero : Option Duration → Bool
is_zero none = false
is_zero (some d) = d == 0

-- `HttpConfig::with_connect_timeout`
unfoldable pub with_connect_timeout : HttpConfig → Option Duration → Result HttpConfig
with_connect_timeout http connect_timeout =
    if is_zero connect_timeout
    then err (Error.config (codes "connect timeout must be greater than 0"))
    else ok (record http { connect_timeout = connect_timeout })

-- `Default for HttpConfig`
abbrev pub default_http : HttpConfig
default_http = record {
  timeout = default_timeout;
  connect_timeout = none;
  max_response_body_bytes = default_max_response_body_bytes;
  retry = no_retries;
}
