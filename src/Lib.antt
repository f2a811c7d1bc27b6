-- ===== src/Lib.antt =====
-- A model of the EPay SDK for Rust, and what holds of it.
--
-- The SDK signs requests to an EPay payment gateway, sends them, checks the answers, and verifies the
-- notifications that the gateway sends back. The parts, by their files under src/:
--
-- types.rs, endpoint.rs, limits.rs, error.rs: Types, Endpoint, Limits, Error. The enums are data types
-- with the source's constructors; a static text and an owned text are the same type. Error/Redact.antt
-- is the masking of secrets, Error/Codes.antt the named errors.
-- params.rs: Params, over BTreeMap (an association list with increasing keys). Params.insert drops empty
-- values as Params::insert does. Params/Redacted.antt is the form encoding and what is shown of it;
-- Params/Replay.antt reads a map as the sequence of operations that made it.
-- signer.rs: Signer. The digest is a parameter (Crates/Digest.antt).
-- validation.rs: Validation, and Validation/Callback.antt for the callback URLs.
-- config.rs: Config (from_parts), Config/Retry.antt, Config/Http.antt, Config/Env.antt.
-- money.rs: Money, over Crates/Decimals.antt.
-- serde_util.rs: Serde (flex_i64, flex_i32, flex_u64), with an f64 as Serde/Floats.antt describes it.
-- notify.rs: Notify (parsing), Notify/Canonical.antt (canonicalize), Notify/Verify.antt (verify_notify,
-- try_into_success).
-- test_util.rs: Notify/Fixture.antt (NotifyFixture).
-- payment.rs: Payment (requests), Payment/Request.antt (their setters), Payment/Callbacks.antt,
-- Payment/Response.antt, Payment/Form.antt.
-- order.rs, refund.rs, merchant.rs: Order, Refund, Merchant.
-- protocol.rs: Protocol (ProtocolContext and its forms), Protocol/Builder.antt (the builder, from_env_with).
-- transport.rs: Transport (the trait, with the state of the transport passed explicitly),
-- Transport/Mock.antt (the scripted transport) and Transport/Reqwest.antt (ReqwestTransport).
-- client.rs: Client (the operations), Client/Call.antt (get_json, post_json, merchant_call),
-- Client/Json.antt (parse_json), Client/Pages.antt (query_all_orders), Client/Build.antt (ClientBuilder),
-- Client/Facade.antt (the methods that only pass on to the context).
-- integrations/axum.rs: Axum (the extractors, payer_ip, the replies).
-- And from examples/axum_server.rs: Server (the shop's orders and its notify handler), Server/History.antt
-- (the events of the shop, its steps and reachable states) and
-- Server/Handlers.antt (the other pages).
--
-- A client holds a protocol context, which holds a configuration and a signer; an operation validates
-- its request, builds Params, signs them or adds the key, sends them through the transport, decodes the
-- envelope and checks the answer against the request and the configuration. In the other direction an
-- extractor of axum reads a callback's query and body, canonicalizes the fields, verifies them with the
-- context, and gives the shop's handler the data, with which it settles an order.
--
-- Texts are lists of Unicode scalar values; lengths count the bytes of their UTF-8 form. Numbers are
-- natural numbers or integers, with the limits of the source's types written where the source can reach
-- them. A Result is a value, and the ? operator is its bind. Packages that the library does not contain
-- are records of operations and documented laws in Crates: md5 and constant_time_eq, percent-encoding,
-- form_urlencoded, url, rust_decimal, serde_json, http with axum's bodies and routers, reqwest. Each has a
-- small instance, on which the runs in Examples are computed. The decoding of a document into a response
-- type is derived by serde and is an argument of the calls. The shop's orders are a map behind a lock,
-- so a state of the shop is the map, and its history a sequence of handler calls.
--
-- Bounds: the loop of a GET takes max_retries as the bound on its rounds, which is never what ends it.
-- The loop of query_all_orders takes fuel; max_pages is enough where max_pages is below 2 ^ 32 - 1. The
-- loop of read_response takes the number of chunks still to come and one more round for the end. The
-- loops of the masking functions take the length of the text, since each round drops a needle.
--
-- Not modelled: logging and tracing (observe.rs); the blocking client (blocking.rs), which runs the same
-- calls on a runtime; the zeroizing storage of the key (secret.rs), of which only the text matters here;
-- derived Debug output; the conversions between amounts and f64, which are floating-point arithmetic; main,
-- the index page and the router of the example; examples/form_payment.rs, which makes one call.
pub mod Common
pub mod Text
pub mod Types
pub mod Endpoint
pub mod Limits
pub mod Error
pub mod Serde
pub mod Server
pub mod Axum
pub mod BTreeMap
pub mod Params
pub mod Crates
pub mod Signer
pub mod Config
pub mod Validation
pub mod Money
pub mod Notify
pub mod Payment
pub mod Order
pub mod Merchant
pub mod Refund
pub mod Protocol
pub mod Transport
pub mod Client
mod Examples
