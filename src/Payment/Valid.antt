-- ===== src/Payment/Valid.antt =====
-- What a prepared payment request guarantees.
use epay_sdk_rust.Common.{◌≤◌, ◌≡◌, refl, true, false, Option, none, some, arith, is_nil}
use epay_sdk_rust.Text.{Text, len, trim}
use epay_sdk_rust.Text.IpAddr.{is_ip_addr}
use epay_sdk_rust.Crates.Decimals.{Decimals}
use epay_sdk_rust.Crates.UrlCrate.{UrlCrate}
use epay_sdk_rust.Error.{Result, ok, >>=-eq-ok}
use epay_sdk_rust.Validation.{
  validate_out_trade_no, validate_pay_type, validate_name, validate_param, validate_device,
  validate_sitename, has_control_chars,
}
use epay_sdk_rust.Config.{Config}
use epay_sdk_rust.Payment.Callbacks.{
  ResolvedCallbacks, validate_callback_overrides, IsResolved, resolve_callbacks-IsResolved,
}
use epay_sdk_rust.Payment.{
  check_opt, validate_client_ip, PaymentRequest, FormPaymentRequest, validate_payment,
  prepare_payment, validate_form, prepare_form,
}

-- the name of a product: not blank, at most 255 bytes, no control characters
abbrev pub IsName : Text → Type 0
IsName name = (is_nil (trim name) ≡ false) × (len name ≤ 255) × (has_control_chars name ≡ false)

abbrev pub WhenGiven {ℓ} : {A : Type ℓ} → (A → Type 0) → Option A → Type 0
WhenGiven P none = Unit
WhenGiven P (some a) = P a

validate_name-IsName : (name : Text) → validate_name name ≡ ok tt → IsName name
unfolding validate_name
validate_name-IsName name h = ground arith

validate_param_bound : (s : Text) → validate_param s ≡ ok tt → len s ≤ 255
unfolding validate_param
validate_param_bound s h = ground arith

validate_sitename_bound :
    (s : Text) → validate_sitename s ≡ ok tt → (len s ≤ 64) × (has_control_chars s ≡ false)
unfolding validate_sitename
validate_sitename_bound s h = ground arith

check_opt-eq-ok {ℓ} :
    {A : Type ℓ} (check : A → Result (Unit {0})) (P : A → Type 0)
    → ((a : A) → check a ≡ ok tt → P a)
    → (o : Option A) → check_opt check o ≡ ok tt
    → WhenGiven P o
unfolding check_opt
check_opt-eq-ok check P sound none h = tt
check_opt-eq-ok check P sound (some a) h = sound a h

-- an IPv4 or IPv6 address, apart from blanks around it
abbrev pub IsClientIp : Option Text → Type 0
IsClientIp o = (raw : Text) × (o ≡ some raw) × (is_ip_addr (trim raw) ≡ true)

validate_client_ip-IsClientIp : (o : Option Text) → validate_client_ip o ≡ ok tt → IsClientIp o
unfolding validate_client_ip
validate_client_ip-IsClientIp none h = cc
validate_client_ip-IsClientIp (some raw) h = (raw, refl, ground arith)

module _ (dec : Decimals) (c : UrlCrate) where
  pub record IsPayable (config : Config c) (req : PaymentRequest dec) (r : ResolvedCallbacks)
      : Type 0 where
    pub out_trade_no : validate_out_trade_no req.out_trade_no ≡ ok tt
    pub pay_type : validate_pay_type req.pay_type ≡ ok tt
    pub name : IsName req.name
    pub param : WhenGiven (λ s. len s ≤ 255) req.param
    pub client_ip : IsClientIp req.client_ip
    pub device : WhenGiven (λ d. validate_device d ≡ ok tt) req.device
    pub callbacks : IsResolved c config req.notify_url req.return_url r

  -- A payment request that is prepared has a valid order number, channel and device, a product name
  -- that is not blank, has at most 255 bytes and no control characters, at most 255 bytes of
  -- merchant data, the payer's IPv4 or IPv6 address, and resolved callbacks.
  pub prepare_payment-IsPayable :
      (config : Config c) (req : PaymentRequest dec) {r : ResolvedCallbacks}
      → prepare_payment dec c req config ≡ ok r
      → IsPayable config req r
  unfolding prepare_payment validate_payment
  prepare_payment-IsPayable config req h =
      let (_, valid, resolved) = >>=-eq-ok (validate_payment dec c req) _ h in
      let (_, order, h₁) = >>=-eq-ok (validate_out_trade_no req.out_trade_no) _ valid in
      let (_, channel, h₂) = >>=-eq-ok (validate_pay_type req.pay_type) _ h₁ in
      let (_, _, h₃) =
        >>=-eq-ok (validate_callback_overrides c req.notify_url req.return_url) _ h₂ in
      let (_, named, h₄) = >>=-eq-ok (validate_name req.name) _ h₃ in
      let (_, short, h₅) = >>=-eq-ok (check_opt validate_param req.param) _ h₄ in
      let (_, ip, dev) = >>=-eq-ok (validate_client_ip req.client_ip) _ h₅ in
      record {
        out_trade_no = order;
        pay_type = channel;
        name = validate_name-IsName req.name named;
        param = check_opt-eq-ok validate_param _ validate_param_bound req.param short;
        client_ip = validate_client_ip-IsClientIp req.client_ip ip;
        device = check_opt-eq-ok validate_device _ (λ d k. k) req.device dev;
        callbacks = resolve_callbacks-IsResolved c config req.notify_url req.return_url resolved;
      }

  pub record IsJumpable (config : Config c) (req : FormPaymentRequest dec) (r : ResolvedCallbacks)
      : Type 0 where
    pub out_trade_no : validate_out_trade_no req.out_trade_no ≡ ok tt
    pub pay_type : WhenGiven (λ t. validate_pay_type t ≡ ok tt) req.pay_type
    pub name : IsName req.name
    pub param : WhenGiven (λ s. len s ≤ 255) req.param
    pub sitename : WhenGiven (λ s. (len s ≤ 64) × (has_control_chars s ≡ false)) req.sitename
    pub callbacks : IsResolved c config req.notify_url req.return_url r

  prepare_form-IsJumpable :
      (config : Config c) (req : FormPaymentRequest dec) {r : ResolvedCallbacks}
      → prepare_form dec c req config ≡ ok r
      → IsJumpable config req r
  unfolding prepare_form validate_form
  prepare_form-IsJumpable config req h =
      let (_, valid, resolved) = >>=-eq-ok (validate_form dec c req) _ h in
      let (_, order, h₁) = >>=-eq-ok (validate_out_trade_no req.out_trade_no) _ valid in
      let (_, _, h₂) =
        >>=-eq-ok (validate_callback_overrides c req.notify_url req.return_url) _ h₁ in
      let (_, named, h₃) = >>=-eq-ok (validate_name req.name) _ h₂ in
      let (_, channel, h₄) = >>=-eq-ok (check_opt validate_pay_type req.pay_type) _ h₃ in
      let (_, short, site) = >>=-eq-ok (check_opt validate_param req.param) _ h₄ in
      record {
        out_trade_no = order;
        pay_type = check_opt-eq-ok validate_pay_type _ (λ t k. k) req.pay_type channel;
        name = validate_name-IsName req.name named;
        param = check_opt-eq-ok validate_param _ validate_param_bound req.param short;
        sitename = check_opt-eq-ok validate_sitename _ validate_sitename_bound req.sitename site;
        callbacks = resolve_callbacks-IsResolved c config req.notify_url req.return_url resolved;
      }
