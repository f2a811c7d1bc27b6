-- ===== src/Protocol.antt =====
-- protocol.rs: the configuration with its signer, and what they do without HTTP.
pub mod Builder
pub mod Filled
pub mod Signed
pub mod Delivered
use epay_sdk_rust.Common.{ℕ, Bool, Option, none, some}
use epay_sdk_rust.Text.{Text, codes}
use epay_sdk_rust.Text.Decimal.{to_string}
use epay_sdk_rust.Types.{pay_type_as_str, submit_path}
use epay_sdk_rust.Crates.Digest.{Digest}
use epay_sdk_rust.Crates.Form.{FormUrlencoded}
use epay_sdk_rust.Crates.Decimals.{Decimals}
use epay_sdk_rust.Crates.UrlCrate.{UrlCrate}
use epay_sdk_rust.Error.{Error, Result, ok, err, ◌>>=◌, ◌>>◌}
use epay_sdk_rust.Params.{Params, empty, insert, insert_opt}
use epay_sdk_rust.Signer.{Signer, from_key, sign, verify, sign_with_params}
use epay_sdk_rust.Validation.Callback.{validate_request_size}
use epay_sdk_rust.Config.{Config, ConfigParts, new_parts, from_parts, endpoint}
use epay_sdk_rust.Money.{to_epay_string}
use epay_sdk_rust.Notify.Verify.{NotifyData, verify_notify}
use epay_sdk_rust.Payment.Callbacks.{ResolvedCallbacks}
use epay_sdk_rust.Payment.{FormPaymentRequest, prepare_form}
use epay_sdk_rust.Payment.Form.{PreparedForm, redirect_url, auto_submit_html}

module _ (c : UrlCrate) where
  -- `ProtocolContext`
  pub record ProtocolContext : Type 0 where
    pub config : Config c
    pub signer : Signer

  -- `ProtocolContext::base_params`
  unfoldable pub base_params : ProtocolContext → Params
  base_params ctx = insert (codes "pid") (to_string ctx.config.pid) empty

  -- `ProtocolContextBuilder::build`
  unfoldable pub build : ConfigParts → Result ProtocolContext
  build parts = do
    config ← from_parts c parts
    signer ← from_key config.key
    ok (record { config = config; signer = signer })

  -- `ProtocolContext::new`
  unfoldable pub new : ℕ → Text → Text → Result ProtocolContext
  new pid key api_base_url = build (new_parts pid key api_base_url)

abbrev pub map_opt {ℓ κ} : {A : Type ℓ} {B : Type κ} → (A → B) → Option A → Option B
map_opt f none = none
map_opt f (some a) = some (f a)

-- The packages that the protocol calls.
pub record Packages : Type 1 where
  pub dec : Decimals
  pub urls : UrlCrate
  pub digest : Digest
  pub enc : FormUrlencoded

module _ (pkg : Packages) where
  -- `ProtocolContext::sign`, `ProtocolContext::verify`
  unfoldable pub sign_context : ProtocolContext pkg.urls → Params → Text
  sign_context ctx params = sign pkg.digest ctx.signer params

  unfoldable pub verify_signature_context : ProtocolContext pkg.urls → Params → Text → Bool
  verify_signature_context ctx params received = verify pkg.digest ctx.signer params received

  -- `ProtocolContext::verify_notify`
  unfoldable pub verify_context : ProtocolContext pkg.urls → Params → Result (NotifyData pkg.dec)
  verify_context ctx params = verify_notify pkg.dec pkg.digest ctx.signer ctx.config.pid params

  -- the parameters of `form_params` before they are signed
  unfoldable pub unsigned_form :
      ProtocolContext pkg.urls → FormPaymentRequest pkg.dec → ResolvedCallbacks → Params
  unsigned_form ctx req callbacks =
      let p₀ = base_params pkg.urls ctx in
      let p₁ = insert (codes "out_trade_no") req.out_trade_no p₀ in
      let p₂ = insert (codes "notify_url") callbacks.notify_url p₁ in
      let p₃ = insert_opt (codes "return_url") callbacks.return_url p₂ in
      let p₄ = insert (codes "name") req.name p₃ in
      let p₅ = insert (codes "money") (to_epay_string pkg.dec req.money) p₄ in
      let p₆ = insert_opt (codes "type") (map_opt pay_type_as_str req.pay_type) p₅ in
      let p₇ = insert_opt (codes "param") req.param p₆ in
      insert_opt (codes "sitename") req.sitename p₇

  -- `ProtocolContext::form_params`
  unfoldable pub form_params : ProtocolContext pkg.urls → FormPaymentRequest pkg.dec → Result Params
  form_params ctx req = do
    callbacks ← prepare_form pkg.dec pkg.urls req ctx.config
    let signed = sign_with_params pkg.digest ctx.signer (unsigned_form ctx req callbacks)
    validate_request_size pkg.enc signed
    ok signed

  -- `ProtocolContext::prepare_form_payment`
  unfoldable pub prepare_form_payment :
      ProtocolContext pkg.urls → FormPaymentRequest pkg.dec → Result (PreparedForm pkg.urls)
  prepare_form_payment ctx req = do
    action ← endpoint pkg.urls ctx.config submit_path
    params ← form_params ctx req
    ok (record { action = action; params = params })

  -- `ProtocolContext::build_form_payment_url`
  unfoldable pub build_form_payment_url :
      ProtocolContext pkg.urls → FormPaymentRequest pkg.dec → Result Text
  build_form_payment_url ctx req = do
    form ← prepare_form_payment ctx req
    ok (pkg.urls.as_str (redirect_url pkg.urls pkg.enc form))

  -- `ProtocolContext::build_form_payment`
  unfoldable pub build_form_payment :
      ProtocolContext pkg.urls → FormPaymentRequest pkg.dec → Result Text
  build_form_payment ctx req = do
    form ← prepare_form_payment ctx req
    ok (auto_submit_html pkg.urls form)
