-- ===== src/Validation/Callback.antt =====
-- validation.rs: the checks on callback URLs and on the size of a request.
use epay_sdk_rust.Common.{◌≤◌, ◌≡◌, Bool, some, arith, ltb, if◌then◌else◌, Option-cases}
use epay_sdk_rust.Text.{Text, len, trim}
use epay_sdk_rust.Crates.UrlCrate.{UrlCrate}
use epay_sdk_rust.Crates.Form.{FormUrlencoded}
use epay_sdk_rust.Limits.{max_callback_url_bytes}
use epay_sdk_rust.Params.{Params}
use epay_sdk_rust.Error.{Error, Result, ok, err, ◌>>=◌, ◌>>◌, >>=-eq-ok}
use epay_sdk_rust.Error.Codes.{
  callback_url_too_long, invalid_notify_url, invalid_return_url, insecure_notify_url,
  insecure_return_url,
}
use epay_sdk_rust.Config.{parse_callback_url, require_https_callback}
use epay_sdk_rust.Config.Strict.{IsCallback, parse_callback_url-IsCallback}
use epay_sdk_rust.Validation.{validate_encoded_size}

-- `validate_callback_length`
unfoldable pub validate_callback_length : Text → Result (Unit {0})
validate_callback_length raw =
    if ltb max_callback_url_bytes (len raw) then err callback_url_too_long else ok tt

-- `validate_request_size`
unfoldable pub validate_request_size : FormUrlencoded → Params → Result (Unit {0})
validate_request_size form params = validate_encoded_size (len (form.serialize params.inner))

module _ (c : UrlCrate) where
  open c use {Url, scheme}

  -- `validate_notify_url`
  unfoldable pub validate_notify_url : Text → Result (Unit {0})
  validate_notify_url raw = do
    validate_callback_length raw
    _ ← parse_callback_url c raw invalid_notify_url
    ok tt

  -- `validate_return_url`
  unfoldable pub validate_return_url : Text → Result (Unit {0})
  validate_return_url raw = do
    validate_callback_length raw
    _ ← parse_callback_url c raw invalid_return_url
    ok tt

  -- `enforce_notify_url_policy`
  unfoldable pub enforce_notify_url_policy : Text → Bool → Result (Unit {0})
  enforce_notify_url_policy raw allow_http = do
    validate_callback_length raw
    url ← parse_callback_url c raw invalid_notify_url
    require_https_callback c url allow_http insecure_notify_url

  -- `enforce_return_url_policy`
  unfoldable pub enforce_return_url_policy : Text → Bool → Result (Unit {0})
  enforce_return_url_policy raw allow_http = do
    validate_callback_length raw
    url ← parse_callback_url c raw invalid_return_url
    require_https_callback c url allow_http insecure_return_url

  -- The text is a URL that the gateway may call back: at most 1024 bytes, and it parses as a
  -- callback address that the policy allows.
  pub record IsCallbackText (allow_http : Bool) (raw : Text) : Type 0 where
    pub short : len raw ≤ 1024
    pub url : Url
    pub parsed : c.parse (trim raw) ≡ some url
    pub callback : IsCallback c allow_http url

  parse_callback_url-eq-ok :
      (raw : Text) (error : Error) (url : Url)
      → parse_callback_url c raw error ≡ ok url
      → c.parse (trim raw) ≡ some url
  unfolding parse_callback_url
  parse_callback_url-eq-ok raw error url h = ground (arith, Option-cases (c.parse (trim raw)))

  validate_callback_length-eq-ok :
      (raw : Text) → validate_callback_length raw ≡ ok tt → len raw ≤ 1024
  unfolding validate_callback_length
  validate_callback_length-eq-ok raw h = ground arith

  -- the body that the two policies share
  enforced :
      (raw : Text) (allow : Bool) (invalid insecure : Error)
      → (do
        validate_callback_length raw
        url ← parse_callback_url c raw invalid
        require_https_callback c url allow insecure)
        ≡ ok tt
      → IsCallbackText allow raw
  enforced raw allow invalid insecure h =
      let (_, short, h₁) = >>=-eq-ok (validate_callback_length raw) _ h in
      let (url, parsed, h₂) = >>=-eq-ok (parse_callback_url c raw invalid) _ h₁ in
      record {
        short = validate_callback_length-eq-ok raw short;
        url = url;
        parsed = parse_callback_url-eq-ok raw invalid url parsed;
        callback = parse_callback_url-IsCallback c raw allow invalid insecure url parsed h₂;
      }

  pub enforce_notify_url_policy-IsCallbackText :
      (raw : Text) (allow_http : Bool)
      → enforce_notify_url_policy raw allow_http ≡ ok tt
      → IsCallbackText allow_http raw
  unfolding enforce_notify_url_policy
  enforce_notify_url_policy-IsCallbackText raw allow_http h =
      enforced raw allow_http invalid_notify_url insecure_notify_url h

  pub enforce_return_url_policy-IsCallbackText :
      (raw : Text) (allow_http : Bool)
      → enforce_return_url_policy raw allow_http ≡ ok tt
      → IsCallbackText allow_http raw
  unfolding enforce_return_url_policy
  enforce_return_url_policy-IsCallbackText raw allow_http h =
      enforced raw allow_http invalid_return_url insecure_return_url h
