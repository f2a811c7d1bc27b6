-- ===== src/Client/Envelope.antt =====
-- The envelope of a response.
use epay_sdk_rust.Common.{◌≡◌, refl, ◌∙◌, true, false, not, none, arith}
use epay_sdk_rust.Text.{Bytes, codes, text_eq}
use epay_sdk_rust.Common.Int.{ℤ}
use epay_sdk_rust.Endpoint.{Endpoint, is_success_code}
use epay_sdk_rust.Crates.SerdeJson.{SerdeJson, Decoded}
use epay_sdk_rust.Error.{ok, err, api_error, >>=-eq-ok, guard-eq-ok}
use epay_sdk_rust.Client.Json.{
  decoded, message_or_default, response_code, view_of, without_secrets, parse_json,
}

module _ (json : SerdeJson) where
  -- the document, and its `code` as an `i32`
  pub record HasCode (target : Endpoint) (body : Bytes) (value : json.Value) (code : ℤ)
      : Type 0 where
    pub parsed : json.from_slice body ≡ Decoded.value value
    pub has_code : response_code json target value ≡ ok code

  -- none of the members that the client uses up or hides
  abbrev pub IsStripped : json.Value → Type 0
  IsStripped v =
      (json.member v (codes "code") ≡ none)
      × (json.member v (codes "key") ≡ none)
      × (json.member v (codes "sign") ≡ none)

  without_secrets-IsStripped : (v : json.Value) → IsStripped (without_secrets json v)
  unfolding without_secrets
  without_secrets-IsStripped v =
      let key_out = json.remove (codes "key") (json.remove (codes "code") v) in
      let code_out = json.remove (codes "code") v in
      (
        json.member-remove (codes "sign") (codes "code") key_out
            ∙ unfold text_eq in
              (json.member-remove (codes "key") (codes "code") code_out
                ∙ json.member-remove (codes "code") (codes "code") v),
        json.member-remove (codes "sign") (codes "key") key_out
            ∙ unfold text_eq in json.member-remove (codes "key") (codes "key") code_out,
        json.member-remove (codes "sign") (codes "sign") key_out ∙ unfold text_eq in refl,
      )

  decoded-eq-ok :
      {A : Type 0} (target : Endpoint) (body : Bytes) (d : Decoded A) {a : A}
      → decoded target body d ≡ ok a
      → d ≡ Decoded.value a
  decoded-eq-ok target body (Decoded.value a) h = ground (arith, h)
  decoded-eq-ok target body (Decoded.failed s) h = cc

  module _ {R : Type 0} (decode : json.Value → Decoded R) (target : Endpoint) (body : Bytes) where
    -- The body is a document with a code of success, decoded without its secrets.
    abbrev pub IsAccepted : R → Type 0
    IsAccepted r =
        (value : json.Value) × (code : ℤ) × HasCode target body value code
        × (is_success_code target code ≡ true)
        × (decode (without_secrets json value) ≡ Decoded.value r)
        × IsStripped (without_secrets json value)

    parse_json-IsAccepted : (r : R) → parse_json json decode target body ≡ ok r → IsAccepted r
    unfolding parse_json
    parse_json-IsAccepted r h =
        let (value, parsed, h₁) = >>=-eq-ok (decoded target body (json.from_slice body)) _ h in
        let (code, has_code, h₂) = >>=-eq-ok (response_code json target value) _ h₁ in
        let (success, h₃) = guard-eq-ok (not (is_success_code target code)) _ _ h₂ in
        (
          value,
          code,
          record {
            parsed = decoded-eq-ok target body (json.from_slice body) parsed;
            has_code = has_code;
          },
          ground (arith, success),
          decoded-eq-ok target body (decode (without_secrets json value)) h₃,
          without_secrets-IsStripped value,
        )

    business_error :
        (value : json.Value) (code : ℤ)
        → HasCode target body value code
        → is_success_code target code ≡ false
        → parse_json json decode target body
          ≡ err (
              api_error target code
                (message_or_default (view_of json (json.member value (codes "msg")))))
    unfolding parse_json
    business_error value code h k = rw (h.parsed, h.has_code, k)

    -- A response is decoded only from a document whose code means success for the endpoint, and only
    -- after `code`, `key` and `sign` are taken out of it; and a document with any other code is
    -- reported as the gateway's business error, with that code and its message, whether or not it
    -- fits the response type.
    pub parse_json_lem :
        ((r : R) → parse_json json decode target body ≡ ok r → IsAccepted r)
        × ((value : json.Value) (code : ℤ)
            → HasCode target body value code
            → is_success_code target code ≡ false
            → parse_json json decode target body
              ≡ err (
                  api_error target code
                    (message_or_default (view_of json (json.member value (codes "msg"))))))
    parse_json_lem = (parse_json-IsAccepted, business_error)
