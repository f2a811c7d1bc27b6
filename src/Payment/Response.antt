-- ===== src/Payment/Response.antt =====
-- payment.rs: the answer to a payment, and the ways to send the payer to the gateway.
use epay_sdk_rust.Common.{
  ◌≡◌, refl, ◌↔◌, true, false, Option, none, some, List, [], ◌∷◌, arith, if◌then◌else◌, is_nil,
}
use epay_sdk_rust.Text.{Text, codes, trim}
use epay_sdk_rust.Endpoint.{Endpoint}
use epay_sdk_rust.Crates.UrlCrate.{UrlCrate}
use epay_sdk_rust.Error.{
  Result, ok, err, ◌>>◌, ok_or, map_err, invalid_response_message, >>=-eq-ok, guard-eq-ok,
  map_err-eq-ok,
}
use epay_sdk_rust.Validation.{validate_trade_no}
use epay_sdk_rust.Payment.Callbacks.{non_blank}

-- `PaymentResponse`, less its `extra` members
pub record PaymentResponse : Type 0 where
  pub trade_no : Text
  pub pay_url : Text
  pub qr_code : Text
  pub url_scheme : Text

pub data PaymentDestination : Type 0 where
  pay_url : Text → PaymentDestination
  qr_code : Text → PaymentDestination
  url_scheme : Text → PaymentDestination

-- `PaymentDestination::as_str`
unfoldable pub as_str : PaymentDestination → Text
as_str (PaymentDestination.pay_url value) = value
as_str (PaymentDestination.qr_code value) = value
as_str (PaymentDestination.url_scheme value) = value

-- `PaymentDestination::parse_url`
unfoldable pub parse_url : (c : UrlCrate) → PaymentDestination → Result c.Url
parse_url c dest = ok_or (c.parse (as_str dest)) (
    invalid_response_message Endpoint.create_payment
      (codes "payment destination is not a valid URL"))

-- `if let Some(value) = non_blank(…) { out.push(…) }`, before what is pushed later
unfoldable pub push_if :
    Option Text → (Text → PaymentDestination) → List PaymentDestination → List PaymentDestination
push_if none mark later = later
push_if (some value) mark later = mark value ∷ later

-- `PaymentResponse::destinations`
unfoldable pub destinations : PaymentResponse → List PaymentDestination
destinations r = push_if (non_blank r.pay_url) PaymentDestination.pay_url (
    push_if (non_blank r.qr_code) PaymentDestination.qr_code
      (push_if (non_blank r.url_scheme) PaymentDestination.url_scheme []))

abbrev pub first {ℓ} : {A : Type ℓ} → List A → Option A
first [] = none
first (x ∷ xs) = some x

-- `PaymentResponse::destination`
unfoldable pub destination : PaymentResponse → Option PaymentDestination
destination r = first (destinations r)

-- `PaymentResponse::validate_success`
unfoldable pub validate_success : PaymentResponse → Result (Unit {0})
validate_success r = do
  map_err (validate_trade_no r.trade_no) (
      invalid_response_message Endpoint.create_payment
        (codes "successful response has a missing or invalid trade_no"))
  (if is_nil (destinations r)
      then err (
          invalid_response_message Endpoint.create_payment
            (codes "successful response has no payment destination"))
      else ok tt)

-- The destination is the first of the cashier URL, the QR code and the app URL that is not blank,
-- trimmed.
abbrev pub IsFirst : PaymentResponse → PaymentDestination → Type 0
IsFirst r (PaymentDestination.pay_url v) = (v ≡ trim r.pay_url) × (is_nil v ≡ false)
IsFirst r (PaymentDestination.qr_code v) =
    (is_nil (trim r.pay_url) ≡ true) × (v ≡ trim r.qr_code) × (is_nil v ≡ false)
IsFirst r (PaymentDestination.url_scheme v) =
    (is_nil (trim r.pay_url) ≡ true)
    × (is_nil (trim r.qr_code) ≡ true)
    × (v ≡ trim r.url_scheme)
    × (is_nil v ≡ false)

destination-IsFirst :
    (r : PaymentResponse) (d : PaymentDestination) → destination r ≡ some d → IsFirst r d
unfolding destination destinations push_if non_blank
destination-IsFirst r (PaymentDestination.pay_url v) h = ground arith
destination-IsFirst r (PaymentDestination.qr_code v) h = ground arith
destination-IsFirst r (PaymentDestination.url_scheme v) h = ground arith

IsFirst-destinations :
    (r : PaymentResponse) (d : PaymentDestination) → IsFirst r d → is_nil (destinations r) ≡ false
unfolding destinations push_if non_blank
IsFirst-destinations r (PaymentDestination.pay_url v) h = ground arith
IsFirst-destinations r (PaymentDestination.qr_code v) h = ground arith
IsFirst-destinations r (PaymentDestination.url_scheme v) h = ground arith

first-some {ℓ} : {A : Type ℓ} (xs : List A) → is_nil xs ≡ false → (x : A) × (first xs ≡ some x)
first-some [] h = cc
first-some (x ∷ xs) h = (x, refl)

validate_success_sound :
    (r : PaymentResponse)
    → validate_success r ≡ ok tt
    → (validate_trade_no r.trade_no ≡ ok tt)
      × ((d : PaymentDestination) × (destination r ≡ some d) × IsFirst r d)
unfolding validate_success
validate_success_sound r h =
    let (_, valid, h₁) = >>=-eq-ok (map_err (validate_trade_no r.trade_no) _) _ h in
    let (filled, _) = guard-eq-ok (is_nil (destinations r)) _ (ok tt) h₁ in
    let (d, found) = first-some (destinations r) filled in
    let chosen : destination r ≡ some d = unfold destination in found in
    (
      map_err-eq-ok (validate_trade_no r.trade_no) _ valid,
      (d, chosen, destination-IsFirst r d chosen),
    )

-- A payment response passes its check exactly when its `trade_no` is valid and there is a
-- destination to send the payer to: the first of the cashier URL, the QR code and the app URL that
-- is not blank, trimmed.
pub validate_success_iff :
    (r : PaymentResponse)
    → (validate_success r ≡ ok tt) ↔ (
        (validate_trade_no r.trade_no ≡ ok tt)
        × ((d : PaymentDestination) × (destination r ≡ some d) × IsFirst r d))
validate_success_iff r = (
  validate_success_sound r,
  λ (valid, (d, found, first_one)).
      unfold validate_success in rw (valid, IsFirst-destinations r d first_one),
)
