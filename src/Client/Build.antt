-- ===== src/Client/Build.antt =====
-- client.rs: `ClientBuilder`. A custom transport is a value of any type `T`; the library is built
-- with the feature `reqwest-rustls`.
pub mod Strict
use epay_sdk_rust.Common.{ℕ, ◌*◌, ◌^◌, Bool, ◌&&◌, Option, none, some, if◌then◌else◌}
use epay_sdk_rust.Text.{Text, codes, trim}
use epay_sdk_rust.Text.Decimal.{parse_unsigned}
use epay_sdk_rust.Crates.Reqwest.{Reqwest}
use epay_sdk_rust.Error.{Error, Result, ok, err, ◌>>=◌, ◌>>◌, ok_or}
use epay_sdk_rust.Config.{ConfigParts, new_parts, is_some}
use epay_sdk_rust.Config.Retry.{Duration, second, RetryPolicy, no_retries}
use epay_sdk_rust.Config.Retry
use epay_sdk_rust.Config.Http.{
  HttpConfig, default_timeout, default_max_response_body_bytes, with_retry, with_connect_timeout,
}
use epay_sdk_rust.Config.Http
use epay_sdk_rust.Config.Env
use epay_sdk_rust.Protocol.{Packages, ProtocolContext, build}
use epay_sdk_rust.Protocol.Builder
use epay_sdk_rust.Transport.Reqwest.{ReqwestTransport, from_client}
use epay_sdk_rust.Transport.Reqwest as ReqwestTransports
use epay_sdk_rust.Client.Call.{Client}

-- the message for a connect timeout beside a client of the caller
abbrev pub connect_timeout_conflict : Error
connect_timeout_conflict = Error.config (
    codes
      "connect_timeout cannot be applied to a caller-supplied reqwest::Client; configure it on that client instead")

-- `value.trim().parse::<…>()` with the message of the setting
unfoldable pub parse_setting : ℕ → Text → Text → Result ℕ
parse_setting limit message value = ok_or (parse_unsigned limit (trim value)) (Error.config message)

-- `if let Some(value) = env::typed(…)? { … parse … }`; `none` leaves the default
unfoldable pub read_setting : Env.Lookup → ℕ → Text → Text → Result (Option ℕ)
read_setting lookup limit name message = do
  value ← Env.typed lookup name message
  elim value [ none ↦ ok none | some v ↦ (parse_setting limit message v) >>= λ n. ok (some n) ]

module _ (pkg : Packages) (net : Reqwest pkg.urls.Url) (version : Text) (T : Type 0) where
  -- `ClientBuilder`
  pub record ClientBuilder : Type 0 where
    pub protocol : ConfigParts
    pub timeout : Duration
    pub connect_timeout : Option Duration
    pub max_response_body_bytes : ℕ
    pub retry : RetryPolicy
    pub transport : Option T
    pub reqwest_client : Option net.HttpClient

  -- `ClientBuilder::from_protocol`
  unfoldable pub from_protocol : ConfigParts → ClientBuilder
  from_protocol protocol = record {
    protocol = protocol;
    timeout = default_timeout;
    connect_timeout = none;
    max_response_body_bytes = default_max_response_body_bytes;
    retry = no_retries;
    transport = none;
    reqwest_client = none;
  }

  -- `ClientBuilder::new`
  unfoldable pub new : ℕ → Text → Text → ClientBuilder
  new pid key api_base_url = from_protocol (new_parts pid key api_base_url)

  -- `ClientBuilder::timeout`
  unfoldable pub set_timeout : Duration → ClientBuilder → ClientBuilder
  set_timeout timeout builder = record builder { timeout = timeout }

  -- `ClientBuilder::connect_timeout`
  unfoldable pub set_connect_timeout : Duration → ClientBuilder → ClientBuilder
  set_connect_timeout timeout builder = record builder { connect_timeout = some timeout }

  -- `ClientBuilder::max_response_body_bytes`
  unfoldable pub set_max_response_body_bytes : ℕ → ClientBuilder → ClientBuilder
  set_max_response_body_bytes bytes builder = record builder { max_response_body_bytes = bytes }

  -- `ClientBuilder::retry`
  unfoldable pub set_retry : RetryPolicy → ClientBuilder → ClientBuilder
  set_retry retry builder = record builder { retry = retry }

  -- `ClientBuilder::debug`
  unfoldable pub set_debug : Bool → ClientBuilder → ClientBuilder
  set_debug debug builder = record builder { protocol = Builder.set_debug debug builder.protocol }

  -- `ClientBuilder::notify_url`
  unfoldable pub set_notify_url : Text → ClientBuilder → ClientBuilder
  set_notify_url url builder = record builder {
    protocol = Builder.set_notify_url url builder.protocol;
  }

  -- `ClientBuilder::return_url`
  unfoldable pub set_return_url : Text → ClientBuilder → ClientBuilder
  set_return_url url builder = record builder {
    protocol = Builder.set_return_url url builder.protocol;
  }

  -- `ClientBuilder::allow_insecure_http`
  unfoldable pub set_insecure_http : Bool → ClientBuilder → ClientBuilder
  set_insecure_http allow builder = record builder {
    protocol = Builder.set_insecure_http allow builder.protocol;
  }

  -- `ClientBuilder::allow_insecure_callback_http`
  unfoldable pub set_insecure_callback_http : Bool → ClientBuilder → ClientBuilder
  set_insecure_callback_http allow builder = record builder {
    protocol = Builder.set_insecure_callback_http allow builder.protocol;
  }

  -- `ClientBuilder::transport`
  unfoldable pub set_transport : T → ClientBuilder → ClientBuilder
  set_transport transport builder = record builder { transport = some transport }

  -- `ClientBuilder::reqwest_client`
  unfoldable pub set_reqwest_client : net.HttpClient → ClientBuilder → ClientBuilder
  set_reqwest_client client builder = record builder { reqwest_client = some client }

  -- a setting that was read, or the builder as it is
  abbrev pub with_setting :
      (ℕ → ClientBuilder → ClientBuilder) → Option ℕ → ClientBuilder → ClientBuilder
  with_setting set none builder = builder
  with_setting set (some n) builder = set n builder

  -- `ClientBuilder::from_env_with`
  unfoldable pub from_env_with : Env.Lookup → Result ClientBuilder
  from_env_with lookup = do
    protocol ← Builder.from_env_with lookup
    let b₀ = from_protocol protocol
    timeout ←
        read_setting lookup (2 ^ 64) (codes "EPAY_TIMEOUT_SECS")
          (codes "EPAY_TIMEOUT_SECS must be a positive integer")
    let b₁ = with_setting (λ seconds. set_timeout (seconds * second)) timeout b₀
    connect ←
        read_setting lookup (2 ^ 64) (codes "EPAY_CONNECT_TIMEOUT_SECS")
          (codes "EPAY_CONNECT_TIMEOUT_SECS must be a positive integer")
    let b₂ = with_setting (λ seconds. set_connect_timeout (seconds * second)) connect b₁
    bytes ←
        read_setting lookup (2 ^ 64) (codes "EPAY_MAX_RESPONSE_BYTES")
          (codes "EPAY_MAX_RESPONSE_BYTES must be a positive integer")
    let b₃ = with_setting set_max_response_body_bytes bytes b₂
    retries ←
        read_setting lookup (2 ^ 32) (codes "EPAY_MAX_RETRIES")
          (codes "EPAY_MAX_RETRIES must be a non-negative integer")
    ok (with_setting (λ n. set_retry (Retry.new n)) retries b₃)

  -- `Box<dyn Transport>`: the caller's transport or the one on reqwest
  pub data BoxedTransport : Type 0 where
    custom : (transport : T) → BoxedTransport
    builtin : ReqwestTransport pkg.urls net version → BoxedTransport

  -- the transport that `build` picks
  unfoldable pub pick_transport :
      Option T → Option net.HttpClient → HttpConfig → Result BoxedTransport
  pick_transport (some transport) client http = ok (custom transport)
  pick_transport none (some client) http = ok (builtin (from_client pkg.urls net version client))
  pick_transport none none http =
      (ReqwestTransports.new pkg.urls net version http.timeout http.connect_timeout) >>= λ made.
      ok (builtin made)

  -- `Inner`: the client with its transport
  pub record BuiltClient : Type 0 where
    pub client : Client pkg
    pub transport : BoxedTransport

  -- `ClientBuilder::build`
  unfoldable pub build_client : ClientBuilder → Result BuiltClient
  build_client builder =
      if is_some builder.reqwest_client && is_some builder.connect_timeout
      then err connect_timeout_conflict
      else do
        plain ← Http.new builder.timeout builder.max_response_body_bytes
        http ← with_connect_timeout (with_retry plain builder.retry) builder.connect_timeout
        protocol ← build pkg.urls builder.protocol
        transport ← pick_transport builder.transport builder.reqwest_client http
        ok (record { client = record { protocol = protocol; http = http }; transport = transport })

  -- `Client::new`
  unfoldable pub new_client : ℕ → Text → Text → Result BuiltClient
  new_client pid key api_base_url = build_client (new pid key api_base_url)

  -- `Client::from_env`, on the environment of the process
  unfoldable pub client_from_env : Env.Lookup → Result BuiltClient
  client_from_env process = do builder ← from_env_with process; build_client builder

  -- `Client::with_transport`
  unfoldable pub with_transport : ProtocolContext pkg.urls → HttpConfig → T → BuiltClient
  with_transport protocol http transport = record {
    client = record { protocol = protocol; http = http };
    transport = custom transport;
  }
