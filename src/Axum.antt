-- ===== src/Axum.antt =====
-- integrations/axum.rs: the extractors for callbacks and return pages. Waiting for the body is the
-- call of `to_bytes`; the debug lines of the extractors are left out.
pub mod Body
pub mod Accepted
use epay_sdk_rust.Common.{
  ℕ, ◌-◌, Bool, false, not, ◌&&◌, Option, none, some, List, [], ◌∷◌, ◌++◌, ltb, if◌then◌else◌,
  is_nil,
}
use epay_sdk_rust.Text.{Text, Bytes, codes, len, trim, eq_ignore_ascii_case, split}
use epay_sdk_rust.Text.Decimal.{to_string}
use epay_sdk_rust.Text.IpAddr.{IpAddr, parse_ip}
use epay_sdk_rust.Text.Utf8.{from_utf8}
use epay_sdk_rust.Types.{notify_success, notify_fail}
use epay_sdk_rust.Crates.Http.{HttpCrate}
use epay_sdk_rust.Crates.Percent.{PercentDecode}
use epay_sdk_rust.Error.{Error, Result, ok, err, ◌>>=◌, ◌>>◌, ok_or, notify_error}
use epay_sdk_rust.Params.{Params}
use epay_sdk_rust.Notify.{default_limits, parse_raw_with_limits}
use epay_sdk_rust.Notify.Canonical.{canonicalize}
use epay_sdk_rust.Notify.Verify.{NotifyData, or_empty}
use epay_sdk_rust.Protocol.{Packages, ProtocolContext, verify_context}

-- a response with a static text as its body
pub record Response : Type 0 where
  pub status : ℕ
  pub text : Text

-- `NotifyAck`
pub record NotifyAck : Type 0 where
  pub reply : Text

-- `NotifyAck::ok`, `NotifyAck::fail`
abbrev pub ack_ok : NotifyAck
ack_ok = record { reply = notify_success }

abbrev pub ack_fail : NotifyAck
ack_fail = record { reply = notify_fail }

-- `From<Result<()>> for NotifyAck`
unfoldable pub ack_from : Result (Unit {0}) → NotifyAck
ack_from (ok _) = ack_ok
ack_from (err _) = ack_fail

-- `IntoResponse for NotifyAck`
unfoldable pub ack_into_response : NotifyAck → Response
ack_into_response ack = record { status = 200; text = ack.reply }

-- `NotifyRejection` and its `IntoResponse`
pub record NotifyRejection : Type 0 where
  pub reason : Error

unfoldable pub rejection_into_response : NotifyRejection → Response
rejection_into_response rejection = record { status = 200; text = notify_fail }

-- `NotifyInputRejection` and its `IntoResponse`
pub record NotifyInputRejection : Type 0 where
  pub reason : Error

unfoldable pub input_rejection_into_response : NotifyInputRejection → Response
input_rejection_into_response rejection = record {
  status = 400;
  text = codes "invalid epay parameters";
}

-- What an extractor gives: the value, or its rejection.
pub data Extracted (T R : Type 0) : Type 0 where
  extracted : (value : T) → Extracted T R
  rejected : (rejection : R) → Extracted T R

-- `Result::map_err` with the constructor of a rejection
unfoldable pub or_rejected : {T R : Type 0} → (Error → R) → Result T → Extracted T R
or_rejected reject (ok value) = extracted value
or_rejected reject (err error) = rejected (reject error)

-- `split(sep).next()`, which is never missing
abbrev pub first_part : Text → ℕ → Text
first_part s sep = elim (split s sep) [ [] ↦ [] | p ∷ _ ↦ p ]

-- the text of the body
unfoldable pub body_text : Bytes → Result (Option Text)
body_text [] = ok none
body_text (b ∷ bytes) = do
  s ← ok_or (from_utf8 (b ∷ bytes)) (notify_error (codes "notify body is not valid UTF-8"))
  ok (some s)

-- `(!query.is_empty()).then_some(query)`
abbrev pub non_empty_query : Text → Option Text
non_empty_query [] = none
non_empty_query (c ∷ s) = some (c ∷ s)

module _ (http : HttpCrate) where
  open http use {HeaderMap, HeaderValue, Body, MethodRouter, Handler}

  -- `callback_route`
  unfoldable pub callback_route : Handler → MethodRouter
  callback_route handler = http.post handler (http.get handler)

  -- the text of a header up to a separator
  unfoldable pub header_part : Option HeaderValue → ℕ → Option Text
  header_part none sep = none
  header_part (some value) sep = elim (http.to_str value) [
    | none ↦ none
    | some s ↦ some (first_part s sep)
  ]

  -- the chain of `payer_ip` on one header
  unfoldable pub forwarded : HeaderMap → Text → Option IpAddr
  forwarded headers name = elim (header_part (http.header headers name) b',') [
    | none ↦ none
    | some s ↦ parse_ip (trim s)
  ]

  -- the loop of `payer_ip`
  unfoldable pub first_forwarded : HeaderMap → List Text → Option IpAddr
  first_forwarded headers [] = none
  first_forwarded headers (name ∷ names) = elim (forwarded headers name) [
    | some ip ↦ some ip
    | none ↦ first_forwarded headers names
  ]

  abbrev pub proxy_headers : List Text
  proxy_headers = codes "x-forwarded-for" ∷ codes "x-real-ip" ∷ []

  -- `payer_ip`, on the address of the peer
  unfoldable pub payer_ip : HeaderMap → IpAddr → Bool → IpAddr
  payer_ip headers peer trust_proxy_headers =
      if trust_proxy_headers
      then elim (first_forwarded headers proxy_headers) [ some ip ↦ ip | none ↦ peer ]
      else peer

  -- the parts of a request that the extractors use
  pub record Request : Type 0 where
    pub query : Option Text
    pub headers : HeaderMap
    pub body : Body

  -- `is_form_content_type`
  unfoldable pub is_form_content_type : Option HeaderValue → Bool
  is_form_content_type value = elim (header_part value b';') [
    | none ↦ false
    | some s ↦ eq_ignore_ascii_case (trim s) (codes "application/x-www-form-urlencoded")
  ]

  -- the test of the content type in `read_notify_params`
  unfoldable pub check_content_type : Bytes → Option HeaderValue → Result (Unit {0})
  check_content_type bytes content_type =
      if not (is_nil bytes) && not (is_form_content_type content_type)
      then err
          (notify_error (codes "non-empty notify body must be application/x-www-form-urlencoded"))
      else ok tt

  module _ (p : PercentDecode) where
    -- `read_notify_params`
    unfoldable pub read_notify_params : Request → Result Params
    read_notify_params request =
        let limit = default_limits.max_encoded_bytes in
        let q = or_empty request.query in
        if ltb limit (len q)
        then err (
            notify_error
              (codes "encoded notification exceeds " ++ to_string limit ++ codes " bytes"))
        else do
          bytes ←
              ok_or (http.to_bytes request.body (limit - len q))
                (notify_error (codes "notify body unreadable or too large"))
          check_content_type bytes (http.header request.headers (codes "content-type"))
          body ← body_text bytes
          entries ← parse_raw_with_limits p (non_empty_query q) body default_limits
          canonicalize entries

    -- `FromRequest for ParsedNotify`
    unfoldable pub parsed_notify : Request → Extracted Params NotifyRejection
    parsed_notify request = or_rejected (λ e. record { reason = e }) (read_notify_params request)

    -- `FromRequest for NotifyParams`
    unfoldable pub notify_params : Request → Extracted Params NotifyInputRejection
    notify_params request = or_rejected (λ e. record { reason = e }) (read_notify_params request)

    module _ (pkg : Packages) {S : Type 0} (from_ref : S → ProtocolContext pkg.urls) where
      -- `FromRequest for VerifiedNotify`
      unfoldable pub verified_notify : Request → S → Extracted (NotifyData pkg.dec) NotifyRejection
      verified_notify request state =
          or_rejected (λ e. record { reason = e })
            (do params ← read_notify_params request; verify_context pkg (from_ref state) params)

      -- `FromRequest for VerifiedReturn`, which is never rejected
      unfoldable pub verified_return : Request → S → Result (NotifyData pkg.dec)
      verified_return request state = do
        params ← read_notify_params request
        verify_context pkg (from_ref state) params
