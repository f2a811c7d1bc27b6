-- ===== src/Transport.antt =====
-- transport.rs: the transport that a client is given, as an interface with explicit state.
pub mod Mock
pub mod Reqwest
use epay_sdk_rust.Common.{ℕ, Option, List}
use epay_sdk_rust.Text.{Text, Bytes}
use epay_sdk_rust.Crates.UrlCrate.{UrlCrate}
use epay_sdk_rust.Error.{Result}
use epay_sdk_rust.Config.Retry.{Duration}

pub record TransportOptions : Type 0 where
  pub max_response_bytes : ℕ
  pub timeout : Option Duration

-- `trait Transport`: each call changes the state of the transport.
pub record Transport (c : UrlCrate) : Type 1 where
  pub World : Type 0
  pub get : c.Url → TransportOptions → World → Result Bytes × World
  pub post_form : c.Url → List (Text × Text) → TransportOptions → World → Result Bytes × World
  pub sleep : Duration → World → World
