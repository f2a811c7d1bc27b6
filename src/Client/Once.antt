-- ===== src/Client/Once.antt =====
-- Payments and refunds are sent once.
use epay_sdk_rust.Common.{◌≡◌, refl, ◌⊎◌, inl, inr, List, [], ◌∷◌, ◌++◌}
use epay_sdk_rust.Text.{Text, Bytes, codes}
use epay_sdk_rust.Endpoint.{Endpoint, method}
use epay_sdk_rust.Crates.SerdeJson.{SerdeJson, Decoded}
use epay_sdk_rust.Error.{Result, ok, err}
use epay_sdk_rust.Params.{Params}
use epay_sdk_rust.Protocol.{Packages}
use epay_sdk_rust.Refund.{RefundRequest, RefundResponse}
use epay_sdk_rust.Payment.{PaymentRequest}
use epay_sdk_rust.Payment.Response.{PaymentResponse}
use epay_sdk_rust.Transport.{TransportOptions}
use epay_sdk_rust.Transport.Mock.{MockInner, RecordedRequest, mock_transport, next, recorded}
use epay_sdk_rust.Client.Call.{CallOptions, Client, post_json, post_to, merchant_call}
use epay_sdk_rust.Client.{create_payment, refund, first_try, then_check}

module _ (pkg : Packages) (json : SerdeJson) (query_pairs : pkg.urls.Url → List (Text × Text)) where
  -- At most one request went out, a POST, and nothing was waited for.
  pub record IsSentOnce (before after : MockInner) : Type 0 where
    pub sleeps : after.sleeps ≡ before.sleeps
    pub requests :
        (after.requests ≡ before.requests)
        ⊎ ((r : RecordedRequest) × (after.requests ≡ before.requests ++ r ∷ [])
            × (r.method ≡ codes "POST"))

  kept : (mock : MockInner) → IsSentOnce mock mock
  kept mock = record { sleeps = refl; requests = inl refl }

  post_to-IsSentOnce :
      {R : Type 0} (done : Bytes → Result R) (form : Params) (options : TransportOptions)
      (url : Result pkg.urls.Url) (mock : MockInner)
      → IsSentOnce mock
          (post_to pkg json (mock_transport pkg.urls query_pairs) done form options url mock).1
  unfolding post_to next recorded
  post_to-IsSentOnce done form options (err e) mock = kept mock
  post_to-IsSentOnce done form options (ok url) mock = record {
    sleeps = refl;
    requests = inr (_, refl, refl);
  }

  post_json-IsSentOnce :
      {R : Type 0} (decode : json.Value → Decoded R) (client : Client pkg) (target : Endpoint)
      (query form : Params) (options : CallOptions) (mock : MockInner)
      → IsSentOnce mock
          (post_json pkg json
            (mock_transport pkg.urls query_pairs)
            decode
            client
            target
            query
            form
            options
            mock).1
  unfolding post_json
  post_json-IsSentOnce decode client target query form options mock =
      post_to-IsSentOnce _ form _ _ mock

  first_try-IsSentOnce :
      {A R : Type 0} (r : Result A) (mock : MockInner) (k : A → Result R × MockInner)
      → ((a : A) → IsSentOnce mock (k a).1)
      → IsSentOnce mock (first_try pkg json (mock_transport pkg.urls query_pairs) r mock k).1
  unfolding first_try
  first_try-IsSentOnce (ok a) mock k h = h a
  first_try-IsSentOnce (err e) mock k h = kept mock

  -- However the client is configured to retry, creating a payment sends at most one request, a POST,
  -- and waits for nothing.
  pub create_payment-IsSentOnce :
      (decode : json.Value → Decoded PaymentResponse) (client : Client pkg)
      (request : PaymentRequest pkg.dec) (options : CallOptions) (mock : MockInner)
      → IsSentOnce mock
          (create_payment pkg json
            (mock_transport pkg.urls query_pairs)
            decode
            client
            request
            options
            mock).1
  unfolding create_payment then_check
  create_payment-IsSentOnce decode client request options mock =
      first_try-IsSentOnce _ mock _
        λ callbacks. post_json-IsSentOnce decode client _ _ _ options mock

  -- However the client is configured to retry, a refund sends at most one request, a POST, and waits
  -- for nothing.
  refund-IsSentOnce :
      (decode : json.Value → Decoded RefundResponse) (client : Client pkg)
      (request : RefundRequest pkg.dec) (options : CallOptions) (mock : MockInner)
      → IsSentOnce mock
          (refund pkg json
            (mock_transport pkg.urls query_pairs)
            decode
            client
            request
            options
            mock).1
  unfolding refund merchant_call method
  refund-IsSentOnce decode client request options mock =
      first_try-IsSentOnce _ mock _ λ id. post_json-IsSentOnce decode client _ _ _ options mock
