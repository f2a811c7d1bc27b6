-- ===== src/Payment/Callbacks.antt =====
-- payment.rs: the callbacks of a request, merged with the configured defaults.
use epay_sdk_rust.Common.{
  ◌≡◌, subst, ◌↔◌, ◌⊎◌, true, false, arith, Bool, Option, none, some, if◌then◌else◌, is_nil,
}
use epay_sdk_rust.Text.{Text, trim}
use epay_sdk_rust.Crates.UrlCrate.{UrlCrate}
use epay_sdk_rust.Error.{Result, ok, ◌>>=◌, ◌>>◌, ok_or, >>=-eq-ok, ok_or-eq-ok, ok-injective}
use epay_sdk_rust.Error.Codes.{missing_notify_url}
use epay_sdk_rust.Config.{Config}
use epay_sdk_rust.Validation.Callback.{
  validate_notify_url, validate_return_url, enforce_notify_url_policy, enforce_return_url_policy,
  IsCallbackText, enforce_notify_url_policy-IsCallbackText,
  enforce_return_url_policy-IsCallbackText,
}

-- `non_blank`
unfoldable pub non_blank : Text → Option Text
non_blank value = if is_nil (trim value) then none else some (trim value)

unfoldable pub non_blank_opt : Option Text → Option Text
non_blank_opt none = none
non_blank_opt (some value) = non_blank value

abbrev pub or_else : Option Text → Option Text → Option Text
or_else none b = b
or_else (some a) b = some a

-- `first_non_blank`
unfoldable pub first_non_blank : Option Text → Option Text → Option Text
first_non_blank primary fallback = or_else (non_blank_opt primary) (non_blank_opt fallback)

-- a text that is missing or blank
abbrev pub IsBlank : Option Text → Type 0
IsBlank none = Unit
IsBlank (some text) = is_nil (trim text) ≡ true

-- a text that is not blank, less the spaces around it
abbrev pub IsGiven : Option Text → Text → Type 0
IsGiven none value = true ≡ false
IsGiven (some text) value = (is_nil (trim text) ≡ false) × (trim text ≡ value)

-- the request's own text where that is not blank, or else the configured one
abbrev pub IsChosen : Option Text → Option Text → Text → Type 0
IsChosen own configured value = IsGiven own value ⊎ IsBlank own × IsGiven configured value

first_non_blank_iff :
    (own configured : Option Text) (value : Text)
    → (first_non_blank own configured ≡ some value) ↔ IsChosen own configured value
unfolding first_non_blank non_blank_opt non_blank
first_non_blank_iff none none value = ground arith
first_non_blank_iff none (some b) value = ground arith
first_non_blank_iff (some a) none value = ground arith
first_non_blank_iff (some a) (some b) value = ground arith

pub record ResolvedCallbacks : Type 0 where
  pub notify_url : Text
  pub return_url : Option Text

module _ (c : UrlCrate) where
  abbrev pub url_text : Option c.Url → Option Text
  url_text none = none
  url_text (some url) = some (c.as_str url)

  unfoldable pub enforce_return : Option Text → Bool → Result (Unit {0})
  enforce_return none allow_http = ok tt
  enforce_return (some url) allow_http = enforce_return_url_policy c url allow_http

  -- `resolve_callbacks`
  unfoldable pub resolve_callbacks : Option Text → Option Text → Config c → Result ResolvedCallbacks
  resolve_callbacks notify return_to config = do
    let allow_http = config.allow_insecure_callback_http
    notify_url ← ok_or (first_non_blank notify (url_text config.notify_url)) missing_notify_url
    enforce_notify_url_policy c notify_url allow_http
    let return_url = first_non_blank return_to (url_text config.return_url)
    enforce_return return_url allow_http
    ok (record { notify_url = notify_url; return_url = return_url })

  unfoldable pub validate_notify_override : Option Text → Result (Unit {0})
  validate_notify_override none = ok tt
  validate_notify_override (some url) = validate_notify_url c url

  unfoldable pub validate_return_override : Option Text → Result (Unit {0})
  validate_return_override none = ok tt
  validate_return_override (some url) = validate_return_url c url

  -- `validate_callback_overrides`
  unfoldable pub validate_callback_overrides : Option Text → Option Text → Result (Unit {0})
  validate_callback_overrides notify return_to = do
    validate_notify_override (first_non_blank notify none)
    validate_return_override (first_non_blank return_to none)

  -- What the resolved callbacks promise.
  pub record IsResolved (config : Config c) (notify return_to : Option Text) (r : ResolvedCallbacks)
      : Type 0 where
    pub notify_chosen : IsChosen notify (url_text config.notify_url) r.notify_url
    pub notify_allowed : IsCallbackText c config.allow_insecure_callback_http r.notify_url
    pub return_chosen :
        (value : Text)
        → (r.return_url ≡ some value) ↔ IsChosen return_to (url_text config.return_url) value
    pub return_allowed :
        (raw : Text)
        → r.return_url ≡ some raw
        → IsCallbackText c config.allow_insecure_callback_http raw

  enforce_return-eq-ok :
      (o : Option Text) (allow : Bool) (raw : Text)
      → enforce_return o allow ≡ ok tt
      → o ≡ some raw
      → IsCallbackText c allow raw
  unfolding enforce_return
  enforce_return-eq-ok none allow raw h k = cc
  enforce_return-eq-ok (some url) allow raw h k =
      enforce_return_url_policy-IsCallbackText c raw allow (cc (h, k))

  -- The callbacks that a payment is sent with are the request's own where these are not blank, or
  -- else the configured ones, without spaces around them; there is a notify URL, and a return URL
  -- exactly when one is given or configured; and each of them is at most 1024 bytes and parses as a
  -- callback address, HTTPS unless the configuration allows plain HTTP.
  pub resolve_callbacks-IsResolved :
      (config : Config c) (notify return_to : Option Text) {r : ResolvedCallbacks}
      → resolve_callbacks notify return_to config ≡ ok r
      → IsResolved config notify return_to r
  unfolding resolve_callbacks
  resolve_callbacks-IsResolved config notify return_to h =
      let allow = config.allow_insecure_callback_http in
      let wanted = first_non_blank notify (url_text config.notify_url) in
      let back = first_non_blank return_to (url_text config.return_url) in
      let (url, found, h₁) = >>=-eq-ok (ok_or wanted missing_notify_url) _ h in
      let (_, fine, h₂) = >>=-eq-ok (enforce_notify_url_policy c url allow) _ h₁ in
      let (_, fine', h₃) = >>=-eq-ok (enforce_return back allow) _ h₂ in
      subst (IsResolved config notify return_to) (ok-injective h₃) (record {
        notify_chosen =
            (first_non_blank_iff notify (url_text config.notify_url) url).0
              (ok_or-eq-ok wanted missing_notify_url found);
        notify_allowed = enforce_notify_url_policy-IsCallbackText c url allow fine;
        return_chosen = first_non_blank_iff return_to (url_text config.return_url);
        return_allowed = λ raw k. enforce_return-eq-ok back allow raw fine' k;
      })
