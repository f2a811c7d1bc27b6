-- ===== src/Examples.antt =====
-- Concrete runs of the library's code, on small instances of the packages that it uses.
mod Fields
mod Amounts
mod Callbacks
mod Calls
mod Forms
mod Notified
mod Built
mod Served
mod Values
use epay_sdk_rust.Text.{codes}
use epay_sdk_rust.Signer.{Signer}
use epay_sdk_rust.Crates.Decimals.{Decimals, cent}
use epay_sdk_rust.Crates.Decimals.Toy.{toy_decimals}
use epay_sdk_rust.Crates.Digest.{toy_digest}
use epay_sdk_rust.Crates.Form.{toy_form}
use epay_sdk_rust.Crates.UrlCrate.Toy.{toy_url}
use epay_sdk_rust.Protocol.{Packages}

abbrev pub merchant : Signer
merchant = record { key = codes "secret" }

abbrev pub toy_packages : Packages
toy_packages = record { dec = toy_decimals; urls = toy_url; digest = toy_digest; enc = toy_form }
