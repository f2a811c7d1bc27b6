-- ===== src/Config.antt =====
-- config.rs: the validated protocol configuration. The retry policy and the HTTP settings are in
-- Config/Retry.antt and Config/Http.antt, the environment variables in Config/Env.antt.
pub mod Retry
pub mod Http
pub mod Env
pub mod Strict
use epay_sdk_rust.Common.{
  ℕ, Bool, true, false, not, ◌&&◌, ◌||◌, Option, none, some, ◌++◌, ◌==◌, if◌then◌else◌, is_nil,
}
use epay_sdk_rust.Text.{Text, codes, text_eq, trim, join, trim_start_matches, trim_end_matches}
use epay_sdk_rust.Crates.UrlCrate.{UrlCrate}
use epay_sdk_rust.Error.{Error, Result, ok, err, ◌>>=◌, ◌>>◌, ok_or}
use epay_sdk_rust.Error.Codes.{
  invalid_pid, invalid_key, invalid_api_url, insecure_api_url, invalid_notify_url,
  invalid_return_url, insecure_notify_url, insecure_return_url,
}

-- `ConfigParts`
pub record ConfigParts : Type 0 where
  pub pid : ℕ
  pub key : Text
  pub api_base_url : Text
  pub debug : Bool
  pub notify_url : Option Text
  pub return_url : Option Text
  pub allow_insecure_http : Bool
  pub allow_insecure_callback_http : Bool

-- `ConfigParts::new`
unfoldable pub new_parts : ℕ → Text → Text → ConfigParts
new_parts pid key api_base_url = record {
  pid = pid;
  key = key;
  api_base_url = api_base_url;
  debug = false;
  notify_url = none;
  return_url = none;
  allow_insecure_http = false;
  allow_insecure_callback_http = false;
}

abbrev pub is_some {ℓ} : {A : Type ℓ} → Option A → Bool
is_some none = false
is_some (some _) = true

module _ (c : UrlCrate) where
  open c use {Url, scheme, username, password, host_str, query, fragment}

  -- `Config`
  pub record Config : Type 0 where
    pub pid : ℕ
    pub key : Text
    pub api_base_url : Url
    pub debug : Bool
    pub notify_url : Option Url
    pub return_url : Option Url
    pub allow_insecure_http : Bool
    pub allow_insecure_callback_http : Bool

  -- `require_https_callback`
  unfoldable pub require_https_callback : Url → Bool → Error → Result (Unit {0})
  require_https_callback url allow_http error =
      if text_eq (scheme url) (codes "https") || allow_http then ok tt else err error

  -- the test of `parse_callback_url` on a parsed URL
  unfoldable pub is_callback_url : Url → Bool
  is_callback_url url =
      (text_eq (scheme url) (codes "http") || text_eq (scheme url) (codes "https"))
      && is_some (host_str url)
      && is_nil (username url)
      && not (is_some (password url))
      && not (is_some (fragment url))

  -- `parse_callback_url`
  unfoldable pub parse_callback_url : Text → Error → Result Url
  parse_callback_url raw error = elim (c.parse (trim raw)) [
    | none ↦ err error
    | some url ↦ if is_callback_url url then ok url else err error
  ]

  -- the match on the scheme in `validate_api_base_url`
  unfoldable pub validate_api_scheme : Url → Bool → Result (Unit {0})
  validate_api_scheme url allow_insecure_http =
      if text_eq (scheme url) (codes "https")
      then ok tt
      else if text_eq (scheme url) (codes "http")
      then (if allow_insecure_http then ok tt else err insecure_api_url)
      else err invalid_api_url

  -- no host, or a part that a base URL may not have
  unfoldable pub has_extras : Url → Bool
  has_extras url =
      not (is_some (host_str url))
      || not (is_nil (username url))
      || is_some (password url)
      || is_some (query url)
      || is_some (fragment url)

  -- `validate_api_base_url`
  unfoldable pub validate_api_base_url : Url → Bool → Result (Unit {0})
  validate_api_base_url url allow_insecure_http = do
    validate_api_scheme url allow_insecure_http
    (if has_extras url then err invalid_api_url else ok tt)

  -- the path that ends in exactly one slash
  unfoldable pub normalized_path : Url → Text
  normalized_path url =
      let dir = trim_end_matches (c.path url) b'/' in
      if is_nil dir then codes "/" else dir ++ codes "/"

  -- a callback default of the configuration: `map(…).transpose()`
  unfoldable pub callback_default : Option Text → Bool → Error → Error → Result (Option Url)
  callback_default none allow_http invalid insecure = ok none
  callback_default (some raw) allow_http invalid insecure = do
    url ← parse_callback_url raw invalid
    require_https_callback url allow_http insecure
    ok (some url)

  -- `Config::from_parts`
  unfoldable pub from_parts : ConfigParts → Result Config
  from_parts parts =
      if parts.pid == 0 then err invalid_pid else if is_nil parts.key then err invalid_key else do
        base ← ok_or (c.parse (trim parts.api_base_url)) invalid_api_url
        validate_api_base_url base parts.allow_insecure_http
        let api_base_url = c.set_path (normalized_path base) base
        let allow = parts.allow_insecure_callback_http
        notify ← callback_default parts.notify_url allow invalid_notify_url insecure_notify_url
        return ← callback_default parts.return_url allow invalid_return_url insecure_return_url
        ok (record {
          pid = parts.pid;
          key = parts.key;
          api_base_url = api_base_url;
          debug = parts.debug;
          notify_url = notify;
          return_url = return;
          allow_insecure_http = parts.allow_insecure_http;
          allow_insecure_callback_http = allow;
        })

  -- `Config::endpoint`
  unfoldable pub endpoint : Config → Text → Result Url
  endpoint config path =
      ok_or (c.join config.api_base_url (trim_start_matches path b'/')) invalid_api_url
