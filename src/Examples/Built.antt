-- ===== src/Examples/Built.antt =====
-- Clients that are built, and responses that are read through reqwest.
use epay_sdk_rust.Common.{ℕ, ◌*◌, ◌≤◌, ◌≡◌, refl, ◌↔◌, none, some, [], ◌∷◌, arith, length}
use epay_sdk_rust.Text.{Bytes, codes, text_eq, trim, trim_end_matches}
use epay_sdk_rust.Crates.UrlCrate.Toy.{toy_url}
use epay_sdk_rust.Crates.Reqwest.{Reqwest}
use epay_sdk_rust.Crates.Reqwest.Toy.{toy_reqwest}
use epay_sdk_rust.Error.{ok}
use epay_sdk_rust.Config.Retry.{second, no_retries}
use epay_sdk_rust.Transport.Reqwest.{announces_more, is_success, read_response}
use epay_sdk_rust.Transport.Reqwest.Body.{concat, read_response_iff}
use epay_sdk_rust.Protocol.{ProtocolContext}
use epay_sdk_rust.Client.Build.{ClientBuilder, BuiltClient, custom, build_client}
use epay_sdk_rust.Client.Build.Strict.{IsBuilt, build_client-IsBuilt}
use epay_sdk_rust.Examples.{toy_packages}
use epay_sdk_rust.Examples.Callbacks.{parts, config}

abbrev net : Reqwest toy_url.Url
net = toy_reqwest toy_url.Url

abbrev response : net.Response
unfolding toy_reqwest
response = record {
  code = 200;
  announced = none;
  pieces = (b'a' ∷ b'b' ∷ []) ∷ (b'c' ∷ []) ∷ [];
  broken = none;
}

abbrev idle : net.World
unfolding toy_reqwest
idle = record { script = []; sent = [] }

abbrev abc : Bytes
abc = b'a' ∷ b'b' ∷ b'c' ∷ []

read_response_iff_example :
    ((read_response toy_url net (codes "0.1") response 3 idle).0 ≡ ok abc) ↔ (
      ((announced : ℕ) → net.content_length response ≡ some announced → announced ≤ 3)
      × (length (concat (net.pending response)) ≤ 3)
      × (net.breaks response ≡ none)
      × ((200 ≤ net.status response) × (net.status response ≤ 299))
      × (abc ≡ concat (net.pending response)))
read_response_iff_example =
    read_response_iff toy_url net (codes "0.1") 3 (omega arith) response idle abc

reads_chunks : (read_response toy_url net (codes "0.1") response 3 idle).0 ≡ ok abc
unfolding toy_reqwest read_response epay_sdk_rust.Transport.Reqwest.read_chunks
    epay_sdk_rust.Transport.Reqwest.with_chunk epay_sdk_rust.Transport.Reqwest.saturating_add
    epay_sdk_rust.Transport.Reqwest.check_success is_success
reads_chunks = refl

abbrev builder : ClientBuilder toy_packages net (codes "0.1") ℕ
builder = record {
  protocol = parts;
  timeout = 5 * second;
  connect_timeout = some second;
  max_response_body_bytes = 1024;
  retry = no_retries;
  transport = some 7;
  reqwest_client = none;
}

abbrev built : BuiltClient toy_packages net (codes "0.1") ℕ
built = record {
  client = record {
    protocol = record { config = config; signer = record { key = codes "secret" } };
    http = record {
      timeout = 5 * second;
      connect_timeout = some second;
      max_response_body_bytes = 1024;
      retry = no_retries;
    };
  };
  transport = custom 7;
}

build_client-IsBuilt_example : IsBuilt toy_packages net (codes "0.1") ℕ builder built
unfolding build_client epay_sdk_rust.Config.Http.new epay_sdk_rust.Config.Http.with_connect_timeout
    epay_sdk_rust.Protocol.build epay_sdk_rust.Config.from_parts toy_url trim
    epay_sdk_rust.Config.validate_api_base_url epay_sdk_rust.Config.validate_api_scheme text_eq
    epay_sdk_rust.Config.has_extras epay_sdk_rust.Config.callback_default
    epay_sdk_rust.Config.parse_callback_url epay_sdk_rust.Config.is_callback_url
    epay_sdk_rust.Config.require_https_callback epay_sdk_rust.Signer.from_key
    epay_sdk_rust.Client.Build.pick_transport epay_sdk_rust.Config.normalized_path
    epay_sdk_rust.Config.Http.with_retry trim_end_matches
build_client-IsBuilt_example =
    build_client-IsBuilt toy_packages net (codes "0.1") ℕ builder built refl
