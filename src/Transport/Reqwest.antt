-- ===== src/Transport/Reqwest.antt =====
-- transport.rs, `mod reqwest_impl`: the transport on reqwest.
pub mod Body
use epay_sdk_rust.Common.{
  ℕ, zero, suc, ◌+◌, ◌-◌, ◌^◌, min, Bool, true, false, not, ◌&&◌, ◌||◌, Option, none, some, [],
  ◌++◌, ltb, leb, if◌then◌else◌, length,
}
use epay_sdk_rust.Text.{Text, Bytes, codes}
use epay_sdk_rust.Crates.UrlCrate.{UrlCrate}
use epay_sdk_rust.Crates.Reqwest.{
  Reqwest, ReqwestError, Tried, done, failed, Settings, RequestBuilder, Redirects,
}
use epay_sdk_rust.Error.{
  Error, TransportErrorKind, Result, ok, err, ◌>>=◌, transport_error, http_error,
}
use epay_sdk_rust.Config.Retry.{Duration}
use epay_sdk_rust.Config.{is_some}
use epay_sdk_rust.Transport.{TransportOptions, Transport}

-- `map_reqwest_error`: the kind and the message, which never quotes the error
unfoldable pub classify : ReqwestError → TransportErrorKind × Text
classify e =
    if e.is_timeout
    then (TransportErrorKind.timeout, codes "request timed out")
    else if e.is_connect
    then (TransportErrorKind.connect, codes "connection failed")
    else if e.is_redirect
    then (TransportErrorKind.redirect, codes "redirect rejected")
    else if e.is_body || e.is_decode
    then (TransportErrorKind.body, codes "response body read failed")
    else if e.is_builder || e.is_request
    then (TransportErrorKind.request, codes "request could not be built or sent")
    else (TransportErrorKind.other, codes "request failed")

unfoldable pub map_reqwest_error : ReqwestError → Error
map_reqwest_error e = transport_error (classify e).0 (classify e).1

-- `map_err(map_reqwest_error)`
unfoldable pub classified {ℓ} : {T : Type ℓ} → Tried T → Result T
classified (done value) = ok value
classified (failed e) = err (map_reqwest_error e)

-- `usize::saturating_add`, with the limit of a 64-bit target
unfoldable pub saturating_add : ℕ → ℕ → ℕ
saturating_add a b = min (a + b) (2 ^ 64 - 1)

-- `StatusCode::is_success`
unfoldable pub is_success : ℕ → Bool
is_success status = leb 200 status && ltb status 300

-- `response.content_length().is_some_and(|length| length > …)`
abbrev pub announces_more : Option ℕ → ℕ → Bool
announces_more none limit = false
announces_more (some length) limit = ltb limit length

module _ (c : UrlCrate) (net : Reqwest c.Url) (version : Text) where
  open net use {World, Response}

  -- `ReqwestTransport`
  pub record ReqwestTransport : Type 0 where
    pub client : net.HttpClient

  -- `ReqwestTransport::new`
  unfoldable pub new : Duration → Option Duration → Result ReqwestTransport
  new timeout connect_timeout = do
    client ← classified (
        net.build (record {
          timeout = timeout;
          connect_timeout = connect_timeout;
          redirect = Redirects.none_allowed;
          user_agent = codes "epay-sdk-rust/" ++ version;
          rustls = true;
        }))
    ok (record { client = client })

  -- `ReqwestTransport::from_client`
  unfoldable pub from_client : net.HttpClient → ReqwestTransport
  from_client client = record { client = client }

  -- what the loop of `read_response` does with one chunk; `again` is the next round
  unfoldable pub with_chunk :
      ℕ
      → Bytes
      → (Bytes → Response → World → Result Bytes × World)
      → Tried (Option Bytes)
      → Response
      → World
      → Result Bytes × World
  with_chunk limit body again (failed e) r w = (err (map_reqwest_error e), w)
  with_chunk limit body again (done none) r w = (ok body, w)
  with_chunk limit body again (done (some piece)) r w =
      if ltb limit (saturating_add (length body) (length piece))
      then (err (Error.response_too_large limit), w)
      else again (body ++ piece) r w

  -- The loop of `read_response`. The fuel bounds its rounds: one for each chunk of the body, and the
  -- last one.
  unfoldable pub read_chunks : ℕ → ℕ → Bytes → Response → World → Result Bytes × World
  read_chunks zero limit body r w = (ok body, w)
  read_chunks (suc fuel) limit body r w =
      let (piece, r', w') = net.chunk r w in
      with_chunk limit body (read_chunks fuel limit) piece r' w'

  -- the test of the status behind the loop
  unfoldable pub check_success : ℕ → Bytes → Result Bytes
  check_success status body = if is_success status then ok body else err (http_error status body)

  -- `ReqwestTransport::read_response`
  unfoldable pub read_response : Response → ℕ → World → Result Bytes × World
  read_response r limit w =
      if announces_more (net.content_length r) limit
      then (err (Error.response_too_large limit), w)
      else (let (body, w') = read_chunks (suc (length (net.pending r))) limit [] r w in
          (body >>= check_success (net.status r), w'))

  -- `match options.timeout`
  abbrev pub with_timeout : RequestBuilder c.Url → Option Duration → RequestBuilder c.Url
  with_timeout request none = request
  with_timeout request (some timeout) = record request { timeout = some timeout }

  -- the response of `send`, or its error
  unfoldable pub answered : TransportOptions → Tried Response → World → Result Bytes × World
  answered options (failed e) w = (err (map_reqwest_error e), w)
  answered options (done r) w = read_response r options.max_response_bytes w

  -- `ReqwestTransport::send`
  unfoldable pub send :
      net.HttpClient → RequestBuilder c.Url → TransportOptions → World → Result Bytes × World
  send client request options w =
      let (response, w') = net.send client (with_timeout request options.timeout) w in
      answered options response w'

  -- `impl Transport for ReqwestTransport`
  abbrev pub reqwest_transport : ReqwestTransport → Transport c
  reqwest_transport t = record {
    World = World;
    get = λ url options w.
        send t.client (record { method = codes "GET"; url = url; form = none; timeout = none })
          options w;
    post_form = λ url form options w.
        send t.client
          (record { method = codes "POST"; url = url; form = some form; timeout = none }) options w;
    sleep = λ d w. net.sleep d w;
  }
