-- ===== src/Notify/Fixture/Delivered.antt =====
-- The way of a notification: it is signed and encoded by the gateway, parsed and verified here.
use epay_sdk_rust.Crates.Digest.{Digest}
use epay_sdk_rust.Crates.Decimals.{Decimals}
use epay_sdk_rust.Error.{◌>>=◌}
use epay_sdk_rust.Money.{Money}
