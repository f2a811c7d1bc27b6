-- ===== src/Transport/Mock.antt =====
-- transport.rs, `mod mock`: the scripted transport, which records requests and sleeps.
use epay_sdk_rust.Common.{none, List, [], ◌∷◌, ◌++◌, ltb, if◌then◌else◌, length}
use epay_sdk_rust.Text.{Text, Bytes, codes}
use epay_sdk_rust.Crates.UrlCrate.{UrlCrate}
use epay_sdk_rust.Error.{Error, TransportErrorKind, Result, ok, err, ◌>>=◌, transport_error}
use epay_sdk_rust.Params.{Params, empty, from_iter}
use epay_sdk_rust.Config.Retry.{Duration}
use epay_sdk_rust.Transport.{TransportOptions, Transport}

pub record RecordedRequest : Type 0 where
  pub method : Text
  pub url : Text
  pub query : Params
  pub form : Params
  pub options : TransportOptions

-- `MockInner`
pub record MockInner : Type 0 where
  pub responses : List (Result Bytes)
  pub requests : List RecordedRequest
  pub sleeps : List Duration

-- `MockTransport::push_bytes`, `MockTransport::push_err`
unfoldable pub push_response : Result Bytes → MockInner → MockInner
push_response r mock = record mock { responses = mock.responses ++ r ∷ [] }

-- the test of the size at the end of `next`
unfoldable pub within : TransportOptions → Bytes → Result Bytes
within options response =
    if ltb options.max_response_bytes (length response)
    then err (Error.response_too_large options.max_response_bytes)
    else ok response

-- `pop_front` with the error for an empty queue
unfoldable pub pop_front : List (Result Bytes) → Result Bytes × List (Result Bytes)
pop_front [] = (
  err (transport_error TransportErrorKind.other (codes "mock transport has no scripted response")),
  [],
)
pop_front (r ∷ responses) = (r, responses)

module _ (c : UrlCrate) (query_pairs : c.Url → List (Text × Text)) where
  unfoldable pub recorded : Text → c.Url → Params → TransportOptions → RecordedRequest
  recorded method url form options = record {
    method = method;
    url = c.as_str (c.set_query none url);
    query = from_iter (query_pairs url);
    form = form;
    options = options;
  }

  -- `MockTransport::next`
  unfoldable pub next :
      Text → c.Url → Params → TransportOptions → MockInner → Result Bytes × MockInner
  next method url form options mock =
      let (response, rest) = pop_front mock.responses in
      (
        response >>= within options,
        record {
          responses = rest;
          requests = mock.requests ++ recorded method url form options ∷ [];
          sleeps = mock.sleeps;
        },
      )

  -- `impl Transport for MockTransport`
  abbrev pub mock_transport : Transport c
  mock_transport = record {
    World = MockInner;
    get = λ url options mock. next (codes "GET") url empty options mock;
    post_form = λ url form options mock. next (codes "POST") url (from_iter form) options mock;
    sleep = λ d mock. record mock { sleeps = mock.sleeps ++ d ∷ [] };
  }
