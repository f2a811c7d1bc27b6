-- ===== src/Client/Facade.antt =====
-- client.rs: the calls without options, and what a client passes on to its protocol context. The
-- blocking client of blocking.rs runs the same calls to their end; a call of the model is its whole
-- run, so that `block_on` of a call is the call.
use epay_sdk_rust.Common.{ℕ, Bool, Option, none, some, List}
use epay_sdk_rust.Text.{Text}
use epay_sdk_rust.Crates.SerdeJson.{SerdeJson, Decoded}
use epay_sdk_rust.Error.{Result}
use epay_sdk_rust.Params.{Params}
use epay_sdk_rust.Signer.{Signer}
use epay_sdk_rust.Config.{Config}
use epay_sdk_rust.Config.Retry.{Duration, RetryPolicy}
use epay_sdk_rust.Config.Http.{HttpConfig}
use epay_sdk_rust.Money.{Money}
use epay_sdk_rust.Notify.Verify.{NotifyData}
use epay_sdk_rust.Payment.{PaymentRequest, FormPaymentRequest}
use epay_sdk_rust.Payment.Form.{PreparedForm}
use epay_sdk_rust.Payment.Response.{PaymentResponse}
use epay_sdk_rust.Order.{OrderQueryRequest, OrderDetail, OrderListResponse}
use epay_sdk_rust.Order
use epay_sdk_rust.Refund.{RefundRequest, RefundResponse}
use epay_sdk_rust.Refund
use epay_sdk_rust.Merchant.{MerchantInfo, SettlementListResponse}
use epay_sdk_rust.Protocol.{
  Packages, ProtocolContext, sign_context, verify_signature_context, verify_context,
}
use epay_sdk_rust.Protocol
use epay_sdk_rust.Transport.{Transport}
use epay_sdk_rust.Client.Call.{CallOptions, Client}
use epay_sdk_rust.Client
use epay_sdk_rust.Client.Pages

-- `CallOptions::new` and `Default for CallOptions`
abbrev pub default_options : CallOptions
default_options = record { timeout = none; retry = none }

-- `CallOptions::timeout`, `CallOptions::retry`
unfoldable pub options_timeout : Duration → CallOptions → CallOptions
options_timeout timeout options = record options { timeout = some timeout }

unfoldable pub options_retry : RetryPolicy → CallOptions → CallOptions
options_retry retry options = record options { retry = some retry }

module _ (pkg : Packages) where
  -- `Client::protocol_context`, `Client::config`, `Client::http_config`, `Client::signer`
  unfoldable pub protocol_context : Client pkg → ProtocolContext pkg.urls
  protocol_context client = client.protocol

  unfoldable pub client_config : Client pkg → Config pkg.urls
  client_config client = client.protocol.config

  unfoldable pub http_config : Client pkg → HttpConfig
  http_config client = client.http

  unfoldable pub client_signer : Client pkg → Signer
  client_signer client = client.protocol.signer

  -- `Client::sign`, `Client::verify`
  unfoldable pub client_sign : Client pkg → Params → Text
  client_sign client params = sign_context pkg client.protocol params

  unfoldable pub client_verify : Client pkg → Params → Text → Bool
  client_verify client params received =
      verify_signature_context pkg client.protocol params received

  -- `Client::verify_notify`
  unfoldable pub client_verify_notify : Client pkg → Params → Result (NotifyData pkg.dec)
  client_verify_notify client params = verify_context pkg client.protocol params

  -- `Client::build_form_payment_url`, `Client::build_form_payment`, `Client::prepare_form_payment`
  unfoldable pub client_form_url : Client pkg → FormPaymentRequest pkg.dec → Result Text
  client_form_url client request = Protocol.build_form_payment_url pkg client.protocol request

  unfoldable pub client_form : Client pkg → FormPaymentRequest pkg.dec → Result Text
  client_form client request = Protocol.build_form_payment pkg client.protocol request

  unfoldable pub client_prepare_form :
      Client pkg → FormPaymentRequest pkg.dec → Result (PreparedForm pkg.urls)
  client_prepare_form client request = Protocol.prepare_form_payment pkg client.protocol request

module _ (pkg : Packages) (json : SerdeJson) (net : Transport pkg.urls) where
  open net use {World}

  abbrev pub Decoder : Type 0 → Type 0
  Decoder R = json.Value → Decoded R

  -- `Client::create_payment`
  unfoldable pub create_payment :
      Decoder PaymentResponse
      → Client pkg
      → PaymentRequest pkg.dec
      → World
      → Result PaymentResponse × World
  create_payment decode client request w =
      Client.create_payment pkg json net decode client request default_options w

  -- `Client::query_order`
  unfoldable pub query_order :
      Decoder OrderDetail → Client pkg → OrderQueryRequest → World → Result OrderDetail × World
  query_order decode client request w =
      Client.query_order pkg json net decode client request default_options w

  -- `Client::query_order_by_out_trade_no`, `Client::query_order_by_trade_no`
  unfoldable pub query_order_by_out_trade_no :
      Decoder OrderDetail → Client pkg → Text → World → Result OrderDetail × World
  query_order_by_out_trade_no decode client number w =
      query_order decode client (Order.by_out_trade_no number) w

  unfoldable pub query_order_by_trade_no :
      Decoder OrderDetail → Client pkg → Text → World → Result OrderDetail × World
  query_order_by_trade_no decode client number w =
      query_order decode client (Order.by_trade_no number) w

  -- `Client::query_orders`
  unfoldable pub query_orders :
      Decoder OrderListResponse → Client pkg → ℕ → ℕ → World → Result OrderListResponse × World
  query_orders decode client limit page w =
      Client.query_orders pkg json net decode client limit page default_options w

  -- `Client::query_all_orders`
  unfoldable pub query_all_orders :
      Decoder OrderListResponse
      → Client pkg
      → ℕ
      → ℕ
      → World
      → Option (Result (List OrderDetail) × World)
  query_all_orders decode client limit max_pages w =
      Pages.query_all_orders pkg json net decode max_pages client limit max_pages default_options w

  -- `Client::refund`
  unfoldable pub refund :
      Decoder RefundResponse
      → Client pkg
      → RefundRequest pkg.dec
      → World
      → Result RefundResponse × World
  refund decode client request w =
      Client.refund pkg json net decode client request default_options w

  -- `Client::refund_by_out_trade_no`, `Client::refund_by_trade_no`
  unfoldable pub refund_by_out_trade_no :
      Decoder RefundResponse
      → Client pkg
      → Text
      → Money pkg.dec
      → World
      → Result RefundResponse × World
  refund_by_out_trade_no decode client number money w =
      refund decode client (Refund.refund_by_out_trade_no pkg.dec number money) w

  unfoldable pub refund_by_trade_no :
      Decoder RefundResponse
      → Client pkg
      → Text
      → Money pkg.dec
      → World
      → Result RefundResponse × World
  refund_by_trade_no decode client number money w =
      refund decode client (Refund.refund_by_trade_no pkg.dec number money) w

  -- `Client::query_merchant`
  unfoldable pub query_merchant :
      Decoder MerchantInfo → Client pkg → World → Result MerchantInfo × World
  query_merchant decode client w =
      Client.query_merchant pkg json net decode client default_options w

  -- `Client::query_settlements`
  unfoldable pub query_settlements :
      Decoder SettlementListResponse → Client pkg → World → Result SettlementListResponse × World
  query_settlements decode client w =
      Client.query_settlements pkg json net decode client default_options w
