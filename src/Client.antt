-- ===== src/Client.antt =====
-- client.rs: the client. Logging and tracing are left out. A call takes the state of the transport
-- and returns it behind the result.
pub mod Json
pub mod Build
pub mod Facade
pub mod Call
pub mod Pages
pub mod Retried
pub mod Once
pub mod Envelope
use epay_sdk_rust.Common.{ℕ, ◌-◌, ◌*◌, max}
use epay_sdk_rust.Text.{codes, trim}
use epay_sdk_rust.Text.Decimal.{to_string}
use epay_sdk_rust.Types.{pay_type_as_str, device_as_str}
use epay_sdk_rust.Endpoint.{Endpoint}
use epay_sdk_rust.Crates.SerdeJson.{SerdeJson, Decoded}
use epay_sdk_rust.Error.{Error, Result, ok, err, ◌>>=◌, ◌>>◌}
use epay_sdk_rust.Params.{Params, empty, insert, insert_opt}
use epay_sdk_rust.Signer.{sign_with_params}
use epay_sdk_rust.Validation.{Identifier, as_param}
use epay_sdk_rust.Money.{to_epay_string}
use epay_sdk_rust.Payment.Callbacks.{ResolvedCallbacks}
use epay_sdk_rust.Payment.{PaymentRequest, prepare_payment}
use epay_sdk_rust.Payment.Response.{PaymentResponse, validate_success}
use epay_sdk_rust.Order.{
  OrderQueryRequest, identifier, OrderDetail, OrderListResponse, validate_order, validate_orders,
  clamp_limit,
}
use epay_sdk_rust.Refund.{RefundRequest, RefundResponse, refund_identifier}
use epay_sdk_rust.Merchant.{
  MerchantInfo, SettlementListResponse, validate_merchant, validate_settlements,
}
use epay_sdk_rust.Protocol.{Packages, base_params, map_opt}
use epay_sdk_rust.Transport.{Transport}
use Call.{CallOptions, Client, post_json, merchant_call}

module _ (pkg : Packages) (json : SerdeJson) (net : Transport pkg.urls) where
  open net use {World}

  -- the derived `Deserialize` of a response type
  abbrev pub Decoder {ℓ} : Type ℓ → Type ℓ
  Decoder R = json.Value → Decoded R

  -- `let response = …?; response.check()?; Ok(response)`
  unfoldable pub then_check :
      {R : Type 0} → (R → Result (Unit {0})) → Result R × World → Result R × World
  then_check check (r, w) = ((do response ← r; check response; ok response), w)

  -- `?` on a value that is computed before the transport is used
  unfoldable pub first_try :
      {A R : Type 0} → Result A → World → (A → Result R × World) → Result R × World
  first_try (ok a) w k = k a
  first_try (err e) w k = (err e, w)

  -- the parameters of `create_payment_with` before they are signed
  unfoldable pub payment_params : Client pkg → PaymentRequest pkg.dec → ResolvedCallbacks → Params
  payment_params client request callbacks =
      let p₀ = base_params pkg.urls client.protocol in
      let p₁ = insert (codes "type") (pay_type_as_str request.pay_type) p₀ in
      let p₂ = insert (codes "out_trade_no") request.out_trade_no p₁ in
      let p₃ = insert (codes "notify_url") callbacks.notify_url p₂ in
      let p₄ = insert_opt (codes "return_url") callbacks.return_url p₃ in
      let p₅ = insert (codes "name") request.name p₄ in
      let p₆ = insert (codes "money") (to_epay_string pkg.dec request.money) p₅ in
      let p₇ = insert_opt (codes "clientip") (map_opt trim request.client_ip) p₆ in
      let p₈ = insert_opt (codes "device") (map_opt device_as_str request.device) p₇ in
      insert_opt (codes "param") request.param p₈

  -- `Client::create_payment_with`
  unfoldable pub create_payment :
      Decoder PaymentResponse
      → Client pkg
      → PaymentRequest pkg.dec
      → CallOptions
      → World
      → Result PaymentResponse × World
  create_payment decode client request options w =
      first_try (prepare_payment pkg.dec pkg.urls request client.protocol.config) w λ callbacks.
        let signed =
          sign_with_params pkg.digest client.protocol.signer
            (payment_params client request callbacks) in
        then_check validate_success
          (post_json pkg json net decode client Endpoint.create_payment empty signed options w)

  -- `Client::query_order_with`
  unfoldable pub query_order :
      Decoder OrderDetail
      → Client pkg
      → OrderQueryRequest
      → CallOptions
      → World
      → Result OrderDetail × World
  query_order decode client request options w = first_try (identifier request) w λ id.
      then_check (validate_order pkg.dec request client.protocol.config.pid) (
        merchant_call pkg json net decode client Endpoint.query_order
          (insert (as_param id).0 (as_param id).1 empty) options w)

  -- the parameters of `query_orders_with`
  unfoldable pub page_params : ℕ → ℕ → Params
  page_params limit page =
      let limit' = clamp_limit limit in
      let page' = max page 1 in
      insert (codes "offset") (to_string ((page' - 1) * limit'))
        (insert (codes "page") (to_string page') (insert (codes "limit") (to_string limit') empty))

  -- `Client::query_orders_with`
  unfoldable pub query_orders :
      Decoder OrderListResponse
      → Client pkg
      → ℕ
      → ℕ
      → CallOptions
      → World
      → Result OrderListResponse × World
  query_orders decode client limit page options w =
      then_check (validate_orders pkg.dec client.protocol.config.pid) (
        merchant_call pkg json net decode client Endpoint.query_orders (page_params limit page)
          options w)

  -- `Client::refund_with`
  unfoldable pub refund :
      Decoder RefundResponse
      → Client pkg
      → RefundRequest pkg.dec
      → CallOptions
      → World
      → Result RefundResponse × World
  refund decode client request options w = first_try (refund_identifier pkg.dec request) w λ id.
      merchant_call pkg json net decode client Endpoint.refund
        (insert (codes "money") (to_epay_string pkg.dec request.money)
          (insert (as_param id).0 (as_param id).1 empty))
        options w

  -- `Client::query_merchant_with`
  unfoldable pub query_merchant :
      Decoder MerchantInfo → Client pkg → CallOptions → World → Result MerchantInfo × World
  query_merchant decode client options w =
      then_check (validate_merchant pkg.dec client.protocol.config.pid)
        (merchant_call pkg json net decode client Endpoint.query_merchant empty options w)

  -- `Client::query_settlements_with`
  unfoldable pub query_settlements :
      Decoder SettlementListResponse
      → Client pkg
      → CallOptions
      → World
      → Result SettlementListResponse × World
  query_settlements decode client options w =
      then_check (validate_settlements pkg.dec client.protocol.config.pid)
        (merchant_call pkg json net decode client Endpoint.query_settlements empty options w)
