-- ===== src/Client/Build/Strict.antt =====
-- What a client that was built guarantees.
use epay_sdk_rust.Common.{
  ℕ, ◌≡◌, refl, sym, ap, subst, false, ◌&&◌, Option, none, some, ◌==◌, is_nil,
}
use epay_sdk_rust.Text.{Text}
use epay_sdk_rust.Crates.Reqwest.{Reqwest}
use epay_sdk_rust.Error.{ok, >>=-eq-ok, guard-eq-ok, ok-injective}
use epay_sdk_rust.Config.{ConfigParts, is_some, from_parts}
use epay_sdk_rust.Config.Retry.{Duration, RetryPolicy}
use epay_sdk_rust.Config.Http.{HttpConfig, with_retry, with_connect_timeout}
use epay_sdk_rust.Config.Http
use epay_sdk_rust.Config.Strict.{IsStrict, from_parts-IsStrict}
use epay_sdk_rust.Signer.{from_key}
use epay_sdk_rust.Protocol.{Packages, ProtocolContext, build}
use epay_sdk_rust.Client.Build.{
  ClientBuilder, BoxedTransport, custom, BuiltClient, pick_transport, build_client,
}

-- a timeout that is set is not zero
abbrev pub IsPositive : Option Duration → Type 0
IsPositive none = Unit
IsPositive (some d) = (d == 0) ≡ false

-- The HTTP settings are the given ones, and none of them is zero.
pub record IsHttp (timeout : Duration) (connect : Option Duration) (limit : ℕ) (retry : RetryPolicy)
    (http : HttpConfig) : Type 0 where
  pub timeout_kept : http.timeout ≡ timeout
  pub timeout_positive : (timeout == 0) ≡ false
  pub connect_kept : http.connect_timeout ≡ connect
  pub connect_positive : IsPositive connect
  pub limit_kept : http.max_response_body_bytes ≡ limit
  pub limit_positive : (limit == 0) ≡ false
  pub retry_kept : http.retry ≡ retry

with_connect_timeout-eq-ok :
    (http : HttpConfig) (connect : Option Duration) {out : HttpConfig}
    → with_connect_timeout http connect ≡ ok out
    → (record http { connect_timeout = connect } ≡ out) × IsPositive connect
unfolding with_connect_timeout
with_connect_timeout-eq-ok http none h = (ok-injective h, tt)
with_connect_timeout-eq-ok http (some d) h =
    let (positive, made) = guard-eq-ok (d == 0) _ _ h in (ok-injective made, positive)

built-IsHttp :
    (timeout : Duration) (connect : Option Duration) (limit : ℕ) (retry : RetryPolicy)
    {plain http : HttpConfig}
    → Http.new timeout limit ≡ ok plain
    → with_connect_timeout (with_retry plain retry) connect ≡ ok http
    → IsHttp timeout connect limit retry http
unfolding Http.new with_retry
built-IsHttp timeout connect limit retry {plain} {http} h k =
    let (positive, h1) = guard-eq-ok (timeout == 0) _ _ h in
    let (bounded, h2) = guard-eq-ok (limit == 0) _ _ h1 in
    let (made, good) = with_connect_timeout-eq-ok (with_retry plain retry) connect k in
    let same = ok-injective h2 in
    subst (IsHttp timeout connect limit retry) made (
      subst
        (λ p.
          IsHttp timeout connect limit retry
            (record p { retry = retry; connect_timeout = connect }))
        same
        (record {
          timeout_kept = refl;
          timeout_positive = positive;
          connect_kept = refl;
          connect_positive = good;
          limit_kept = refl;
          limit_positive = bounded;
          retry_kept = refl;
        }))

module _ (pkg : Packages) (net : Reqwest pkg.urls.Url) (version : Text) (T : Type 0) where
  -- The configuration is strict and the signer holds its key; the HTTP settings are the builder's
  -- and not zero; the transport is the caller's, if one was given; and a client of the caller was
  -- not given a connect timeout.
  pub record IsBuilt (builder : ClientBuilder pkg net version T)
      (built : BuiltClient pkg net version T) : Type 0 where
    pub strict : IsStrict pkg.urls builder.protocol built.client.protocol.config
    pub same_key : built.client.protocol.signer.key ≡ built.client.protocol.config.key
    pub http :
        IsHttp builder.timeout builder.connect_timeout builder.max_response_body_bytes builder.retry
          built.client.http
    pub transport_kept : (t : T) → builder.transport ≡ some t → built.transport ≡ custom t
    pub no_conflict : (is_some builder.reqwest_client && is_some builder.connect_timeout) ≡ false

  build-IsStrict :
      (parts : ConfigParts) {ctx : ProtocolContext pkg.urls}
      → build pkg.urls parts ≡ ok ctx
      → IsStrict pkg.urls parts ctx.config × (ctx.signer.key ≡ ctx.config.key)
  unfolding build from_key
  build-IsStrict parts {ctx} h =
      let (config, made, h1) = >>=-eq-ok (from_parts pkg.urls parts) _ h in
      let (signer, got, h2) = >>=-eq-ok (from_key config.key) _ h1 in
      let (filled, made_signer) = guard-eq-ok (is_nil config.key) _ _ got in
      subst (λ c. IsStrict pkg.urls parts c.config × (c.signer.key ≡ c.config.key))
        (ok-injective h2)
        (
          from_parts-IsStrict pkg.urls parts config made,
          ap (λ s. s.key) (sym (ok-injective made_signer)),
        )

  pick-custom :
      (o : Option T) (client : Option net.HttpClient) (http : HttpConfig)
      {out : BoxedTransport pkg net version T}
      → pick_transport pkg net version T o client http ≡ ok out
      → (t : T) → o ≡ some t
      → out ≡ custom t
  unfolding pick_transport
  pick-custom none client http h t e = cc
  pick-custom (some s) client http h t e = cc

  -- A client that is built has a strict configuration, a signer with its key, the timeouts, the
  -- limit and the retry policy that were set, none of the first two zero, and the caller's transport
  -- if one was given. A connect timeout beside a client of the caller is refused.
  pub build_client-IsBuilt :
      (builder : ClientBuilder pkg net version T) (built : BuiltClient pkg net version T)
      → build_client pkg net version T builder ≡ ok built
      → IsBuilt builder built
  unfolding build_client
  build_client-IsBuilt builder built h =
      let (free, h1) =
        guard-eq-ok (is_some builder.reqwest_client && is_some builder.connect_timeout) _ _ h in
      let (plain, plain_ok, h2) =
        >>=-eq-ok (Http.new builder.timeout builder.max_response_body_bytes) _ h1 in
      let (http, http_ok, h3) =
        >>=-eq-ok (with_connect_timeout (with_retry plain builder.retry) builder.connect_timeout) _
          h2 in
      let (protocol, protocol_ok, h4) = >>=-eq-ok (build pkg.urls builder.protocol) _ h3 in
      let (transport, picked, h5) =
        >>=-eq-ok (pick_transport pkg net version T builder.transport builder.reqwest_client http) _
          h4 in
      let (strict, same) = build-IsStrict builder.protocol protocol_ok in
      subst (IsBuilt builder) (ok-injective h5) (record {
        strict = strict;
        same_key = same;
        http = built-IsHttp _ _ _ _ plain_ok http_ok;
        transport_kept = pick-custom _ _ _ picked;
        no_conflict = free;
      })
