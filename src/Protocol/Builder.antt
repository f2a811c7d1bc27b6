-- ===== src/Protocol/Builder.antt =====
-- protocol.rs: `ProtocolContextBuilder`, which holds the parts of a configuration.
use epay_sdk_rust.Common.{◌^◌, Bool, Option, none, some}
use epay_sdk_rust.Text.{Text, codes, trim}
use epay_sdk_rust.Text.Decimal.{parse_unsigned}
use epay_sdk_rust.Error.{Result, ok, ◌>>=◌, ok_or}
use epay_sdk_rust.Error.Codes.{invalid_pid}
use epay_sdk_rust.Config.{ConfigParts, new_parts}
use epay_sdk_rust.Config.Env

-- `if let Some(value) = env::typed(…)? { … env::parse_bool(…)? }`; `none` leaves the default
unfoldable pub read_bool : Env.Lookup → Text → Text → Result (Option Bool)
read_bool lookup name message = do
  value ← Env.typed lookup name message
  elim value [ none ↦ ok none | some v ↦ (Env.parse_bool v message) >>= λ b. ok (some b) ]

abbrev pub or_default {ℓ} : {A : Type ℓ} → Option A → A → A
or_default none a = a
or_default (some b) a = b

-- `ProtocolContextBuilder::from_env_with`
unfoldable pub from_env_with : Env.Lookup → Result ConfigParts
from_env_with lookup = do
  raw ← Env.required lookup (codes "EPAY_PID") (codes "EPAY_PID is required")
  pid ← ok_or (parse_unsigned (2 ^ 64) (trim raw)) invalid_pid
  key ← Env.required lookup (codes "EPAY_KEY") (codes "EPAY_KEY is required")
  api_url ← Env.required lookup (codes "EPAY_API_URL") (codes "EPAY_API_URL is required")
  let parts = new_parts pid key api_url
  let notify_url = Env.optional lookup (codes "EPAY_NOTIFY_URL")
  let return_url = Env.optional lookup (codes "EPAY_RETURN_URL")
  debug ← read_bool lookup (codes "EPAY_DEBUG") (codes "EPAY_DEBUG must be a boolean")
  insecure ←
      read_bool lookup (codes "EPAY_ALLOW_INSECURE_HTTP")
        (codes "EPAY_ALLOW_INSECURE_HTTP must be a boolean")
  callback ←
      read_bool lookup (codes "EPAY_ALLOW_INSECURE_CALLBACK_HTTP")
        (codes "EPAY_ALLOW_INSECURE_CALLBACK_HTTP must be a boolean")
  ok (record parts {
    notify_url = notify_url;
    return_url = return_url;
    debug = or_default debug parts.debug;
    allow_insecure_http = or_default insecure parts.allow_insecure_http;
    allow_insecure_callback_http = or_default callback parts.allow_insecure_callback_http;
  })

-- `ProtocolContextBuilder::from_env`, on the environment of the process
abbrev pub from_env : Env.Lookup → Result ConfigParts
from_env process = from_env_with process

-- `ProtocolContextBuilder::debug`
unfoldable pub set_debug : Bool → ConfigParts → ConfigParts
set_debug debug parts = record parts { debug = debug }

-- `ProtocolContextBuilder::notify_url`, `ProtocolContextBuilder::return_url`
unfoldable pub set_notify_url : Text → ConfigParts → ConfigParts
set_notify_url url parts = record parts { notify_url = some url }

unfoldable pub set_return_url : Text → ConfigParts → ConfigParts
set_return_url url parts = record parts { return_url = some url }

-- `ProtocolContextBuilder::allow_insecure_http`
unfoldable pub set_insecure_http : Bool → ConfigParts → ConfigParts
set_insecure_http allow parts = record parts { allow_insecure_http = allow }

-- `ProtocolContextBuilder::allow_insecure_callback_http`
unfoldable pub set_insecure_callback_http : Bool → ConfigParts → ConfigParts
set_insecure_callback_http allow parts = record parts { allow_insecure_callback_http = allow }
