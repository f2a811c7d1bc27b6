-- ===== src/Client/Call.antt =====
-- client.rs: the HTTP calls that the operations share.
use epay_sdk_rust.Common.{
  ℕ, zero, suc, ◌+◌, true, false, Option, none, some, ltb, if◌then◌else◌, length, is_nil,
}
use epay_sdk_rust.Text.{Bytes, codes, len}
use epay_sdk_rust.Endpoint.{Endpoint, Method, path, act, method}
use epay_sdk_rust.Crates.SerdeJson.{SerdeJson, Decoded}
use epay_sdk_rust.Error.{Error, Result, ok, err, ◌>>=◌, ◌>>◌, sanitized}
use epay_sdk_rust.Params.{Params, empty, insert, insert_opt, merge}
use epay_sdk_rust.Validation.{validate_encoded_size}
use epay_sdk_rust.Config.{endpoint}
use epay_sdk_rust.Config.Retry.{Duration, RetryPolicy, backoff, should_retry}
use epay_sdk_rust.Config.Http.{HttpConfig}
use epay_sdk_rust.Protocol.{Packages, ProtocolContext, base_params}
use epay_sdk_rust.Transport.{Transport, TransportOptions}
use epay_sdk_rust.Client.Json.{parse_json}

pub record CallOptions : Type 0 where
  pub timeout : Option Duration
  pub retry : Option RetryPolicy

abbrev pub or_given {ℓ} : {A : Type ℓ} → Option A → A → A
or_given none a = a
or_given (some b) a = b

-- `map_err(Error::sanitized)`
unfoldable pub sanitize {ℓ} : {A : Type ℓ} → Result A → Result A
sanitize (ok a) = ok a
sanitize (err e) = err (sanitized e)

-- `Inner`, less the transport
pub record Client (pkg : Packages) : Type 0 where
  pub protocol : ProtocolContext pkg.urls
  pub http : HttpConfig

module _ (pkg : Packages) where
  -- `Client::transport_options`
  unfoldable pub transport_options : Client pkg → CallOptions → TransportOptions
  transport_options client options = record {
    max_response_bytes = client.http.max_response_body_bytes;
    timeout = some (or_given options.timeout client.http.timeout);
  }

  -- the policy that a GET uses
  unfoldable pub policy_of : Client pkg → CallOptions → RetryPolicy
  policy_of client options = or_given options.retry client.http.retry

module _ (pkg : Packages) (json : SerdeJson) (net : Transport pkg.urls) where
  open net use {World}

  -- `Client::finish`
  unfoldable pub finish {ℓ} :
      {R : Type ℓ} → (json.Value → Decoded R) → Endpoint → Bytes → TransportOptions → Result R
  finish decode target body options =
      if ltb options.max_response_bytes (length body)
      then err (Error.response_too_large options.max_response_bytes)
      else parse_json json decode target body

  module _ {R : Type 0} (done : Bytes → Result R) (policy : RetryPolicy) (url : pkg.urls.Url)
      (options : TransportOptions) where
    -- the match on one attempt of the loop in `get_json`; `again` is the next round
    unfoldable pub settle : (World → Result R × World) → ℕ → Result Bytes → World → Result R × World
    settle again retries (ok body) w₁ = (done body, w₁)
    settle again retries (err e) w₁ = elim (should_retry policy retries e) [
      | false ↦ (err e, w₁)
      | true ↦ again (net.sleep (backoff policy (suc retries)) w₁)
    ]

    unfoldable pub get_round : (World → Result R × World) → ℕ → World → Result R × World
    get_round again retries w =
        let (attempt, w₁) = net.get url options w in settle again retries (sanitize attempt) w₁

    -- The loop in `get_json`; `left` bounds the rounds after this one. It is `max_retries` at the
    -- start, so that it is never what ends the loop.
    unfoldable pub get_loop : ℕ → ℕ → World → Result R × World
    get_loop zero retries w =
        get_round (λ w₁. (err (Error.param (codes "retries are exhausted")), w₁)) retries w
    get_loop (suc left) retries w = get_round (λ w₁. get_loop left (suc retries) w₁) retries w

  -- the URL of a GET, once the parameters are within the size limit
  unfoldable pub get_url : Client pkg → Endpoint → Params → Result pkg.urls.Url
  get_url client target params = do
    let encoded = pkg.enc.serialize params.inner
    validate_encoded_size (len encoded)
    url ← endpoint pkg.urls client.protocol.config (path target)
    ok (pkg.urls.set_query (some encoded) url)

  -- `Client::get_json`
  unfoldable pub get_json :
      {R : Type 0}
      → (json.Value → Decoded R)
      → Client pkg
      → Endpoint
      → Params
      → CallOptions
      → World
      → Result R × World
  get_json decode client target params options w = elim (get_url client target params) [
    | err e ↦ (err e, w)
    | ok url ↦
        let topts = transport_options pkg client options in
        let policy = policy_of pkg client options in
        get_loop (λ body. finish decode target body topts) policy url topts policy.max_retries 0 w
  ]

  -- the URL of a POST, once the query and the form are within the size limit
  unfoldable pub post_url : Client pkg → Endpoint → Params → Params → Result pkg.urls.Url
  post_url client target query form = do
    let encoded = pkg.enc.serialize query.inner
    validate_encoded_size (len encoded + len (pkg.enc.serialize form.inner))
    url ← endpoint pkg.urls client.protocol.config (path target)
    ok (if is_nil query.inner then url else pkg.urls.set_query (some encoded) url)

  -- the request of `post_json`, once its URL is known
  unfoldable pub post_to :
      {R : Type 0}
      → (Bytes → Result R)
      → Params
      → TransportOptions
      → Result pkg.urls.Url
      → World
      → Result R × World
  post_to done form topts (err e) w = (err e, w)
  post_to done form topts (ok url) w =
      let (attempt, w₁) = net.post_form url form.inner topts w in
      ((do body ← sanitize attempt; done body), w₁)

  -- `Client::post_json`
  unfoldable pub post_json :
      {R : Type 0}
      → (json.Value → Decoded R)
      → Client pkg
      → Endpoint
      → Params
      → Params
      → CallOptions
      → World
      → Result R × World
  post_json decode client target query form options w =
      let topts = transport_options pkg client options in
      post_to (λ body. finish decode target body topts) form topts
        (post_url client target query form) w

  -- `Client::merchant_call`
  unfoldable pub merchant_call :
      {R : Type 0}
      → (json.Value → Decoded R)
      → Client pkg
      → Endpoint
      → Params
      → CallOptions
      → World
      → Result R × World
  merchant_call decode client target extra options w =
      let merged = merge (base_params pkg.urls client.protocol) extra in
      let params = insert (codes "key") client.protocol.config.key merged in
      elim (method target) [
        | Method.get ↦
            get_json decode client target (insert_opt (codes "act") (act target) params) options w
        | Method.post ↦
            post_json decode client target (insert_opt (codes "act") (act target) empty) params
              options w
      ]
