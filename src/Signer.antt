-- ===== src/Signer.antt =====
-- signer.rs: the MD5 signature over the canonical payload and the merchant key.
pub mod Verify
pub mod Payload
use epay_sdk_rust.Common.{
  ℕ, ◌+◌, ◌-◌, ◌/◌, ◌%◌, Bool, false, not, ◌||◌, [], ◌∷◌, ◌++◌, ltb, ◌==◌, if◌then◌else◌, all,
  is_nil,
}
use epay_sdk_rust.Text.{Text, Bytes, codes, as_bytes, len, is_ascii_hexdigit, to_ascii_lowercase}
use epay_sdk_rust.Crates.Digest.{Digest}
use epay_sdk_rust.Error.{Result, ok, err}
use epay_sdk_rust.Error.Codes.{invalid_key}
use epay_sdk_rust.Params.{Params, insert, sign_payload}

abbrev pub sign_type_md5 : Text
sign_type_md5 = codes "MD5"

-- `Signer`; the key is a `MerchantKey`, which shares one text.
pub record Signer : Type 0 where
  pub key : Text

-- `Signer::from_key`
unfoldable pub from_key : Text → Result Signer
from_key key = if is_nil key then err invalid_key else ok (record { key = key })

-- `HEX[n]`
unfoldable pub hex_digit : ℕ → ℕ
hex_digit n = if ltb n 10 then b'0' + n else b'a' + (n - 10)

-- `hex_lower`
unfoldable pub hex_lower : Bytes → Text
unfolding hex_digit
hex_lower [] = []
hex_lower (b ∷ bytes) = hex_digit (b / 16) ∷ hex_digit (b % 16) ∷ hex_lower bytes

module _ (d : Digest) where
  -- `Signer::sign`
  unfoldable pub sign : Signer → Params → Text
  unfolding as_bytes
  sign signer params = hex_lower (d.md5 (as_bytes (sign_payload params) ++ as_bytes signer.key))

  -- `Signer::verify`
  unfoldable pub verify : Signer → Params → Text → Bool
  unfolding len is_ascii_hexdigit to_ascii_lowercase
  verify signer params received =
      if not (len received == 32) || not (all is_ascii_hexdigit (as_bytes received))
      then false
      else d.constant_time_eq (as_bytes (sign signer params))
          (as_bytes (to_ascii_lowercase received))

  -- `Signer::sign_with_params`
  unfoldable pub sign_with_params : Signer → Params → Params
  sign_with_params signer params =
      insert (codes "sign_type") sign_type_md5 (insert (codes "sign") (sign signer params) params)
