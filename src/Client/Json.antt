-- ===== src/Client/Json.antt =====
-- client.rs: `parse_json` and `response_code`.
use epay_sdk_rust.Common.{◌+◌, ◌^◌, not, Option, none, some, [], ◌∷◌, ◌==◌, if◌then◌else◌, is_nil}
use epay_sdk_rust.Text.{Text, Bytes, codes, trim}
use epay_sdk_rust.Common.Int.{ℤ, pos, in_range}
use epay_sdk_rust.Text.Decimal.{parse_digits, parse_unsigned}
use epay_sdk_rust.Endpoint.{Endpoint, is_success_code}
use epay_sdk_rust.Crates.Decimals.{negated}
use epay_sdk_rust.Crates.SerdeJson.{SerdeJson, View, Decoded}
use epay_sdk_rust.Error.{
  Result, ok, err, ◌>>=◌, ok_or, api_error, invalid_response_error, invalid_response_message,
}

-- `str::parse::<i32>`
unfoldable pub parse_i32 : Text → Option ℤ
parse_i32 [] = none
parse_i32 (c ∷ s) =
    let signed : Option ℤ = elim (parse_digits (2 ^ 31 + 1) s) [
      | none ↦ none
      | some n ↦ some (negated n)
    ] in
    let unsigned : Option ℤ = elim (parse_unsigned (2 ^ 31) (c ∷ s)) [
      | none ↦ none
      | some n ↦ some (pos n)
    ] in
    if c == b'-' then signed else unsigned

-- `i32::try_from`
unfoldable pub i32_from : Option ℤ → Option ℤ
i32_from none = none
i32_from (some n) = if in_range (2 ^ 31) n then some n else none

-- the match on the member `code` in `response_code`
unfoldable pub code_of : View → Option ℤ
code_of (View.number n) = i32_from n
code_of (View.string s) = if is_nil s then none else parse_i32 (trim s)
code_of View.other = none

abbrev pub decoded {ℓ} : {A : Type ℓ} → Endpoint → Bytes → Decoded A → Result A
decoded endpoint body (Decoded.value a) = ok a
decoded endpoint body (Decoded.failed shown) = err (invalid_response_error endpoint shown body)

-- the message of a business error
unfoldable pub message_or_default : Option View → Text
message_or_default (some (View.string s)) =
    if is_nil (trim s) then codes "server returned an error without a message" else trim s
message_or_default _ = codes "server returned an error without a message"

module _ (json : SerdeJson) where
  open json use {Value}

  -- `response_code`
  unfoldable pub response_code : Endpoint → Value → Result ℤ
  response_code endpoint value = do
    code ←
        ok_or (json.member value (codes "code"))
          (invalid_response_message endpoint (codes "response is missing integer code"))
    ok_or (code_of (json.view code))
        (invalid_response_message endpoint (codes "response code is not an i32 integer"))

  abbrev pub view_of : Option Value → Option View
  view_of none = none
  view_of (some v) = some (json.view v)

  -- the three calls of `remove`
  unfoldable pub without_secrets : Value → Value
  without_secrets value =
      json.remove (codes "sign") (json.remove (codes "key") (json.remove (codes "code") value))

  -- `parse_json`
  unfoldable pub parse_json {ℓ} : {R : Type ℓ} → (Value → Decoded R) → Endpoint → Bytes → Result R
  parse_json decode endpoint body = do
    value ← decoded endpoint body (json.from_slice body)
    code ← response_code endpoint value
    (if not (is_success_code endpoint code)
        then err (
            api_error endpoint code
              (message_or_default (view_of (json.member value (codes "msg")))))
        else decoded endpoint body (decode (without_secrets value)))
