-- ===== src/Axum/Accepted.antt =====
-- What a request must be for the extractors to accept it.
use epay_sdk_rust.Common.{
  ℕ, ◌+◌, ◌-◌, ◌*◌, ◌≤◌, ◌≡◌, refl, sym, ap, ◌∙◌, ◌↔◌, ◌⊎◌, false, Option, none, some, [], ◌∷◌,
  arith, ltb, length,
}
use epay_sdk_rust.Text.{Text, Bytes, codes, len}
use epay_sdk_rust.Crates.Http.{HttpCrate}
use epay_sdk_rust.Crates.Percent.{PercentDecode}
use epay_sdk_rust.Error.{Error, Result, ok, err, ◌>>=◌, ok_or, >>=-eq-ok, ok_or-eq-ok, guard-eq-ok}
use epay_sdk_rust.Params.{Params}
use epay_sdk_rust.Notify.{default_limits, parse_source, parse_raw_with_limits, parse_raw}
use epay_sdk_rust.Notify.Canonical.{canonicalize, parse_notify_params}
use epay_sdk_rust.Notify.Verify.{NotifyData, or_empty}
use epay_sdk_rust.Notify.Verify.Authentic.{IsAuthentic, verify_notify_iff}
use epay_sdk_rust.Protocol.{Packages, ProtocolContext, verify_context}
use epay_sdk_rust.Axum.Body.{IsBody, body_text_iff, IsForm, check_content_type_iff}
use epay_sdk_rust.Axum.{
  extracted, or_rejected, HttpCrate, Request, check_content_type, body_text, non_empty_query,
  read_notify_params, verified_notify, or_empty,
}

abbrev pub max_encoded : ℕ
max_encoded = 16 * 1024

or_rejected-eq-extracted :
    {T R : Type 0} (reject : Error → R) (r : Result T) {v : T}
    → or_rejected reject r ≡ extracted v
    → r ≡ ok v
unfolding or_rejected
or_rejected-eq-extracted reject (ok v) h = cc
or_rejected-eq-extracted reject (err e) h = cc

-- a missing query and an empty one are read alike
parse_raw-query :
    (p : PercentDecode) (q : Option Text) (body : Option Text)
    → parse_raw_with_limits p (non_empty_query (or_empty q)) body default_limits
      ≡ parse_raw p q body
unfolding parse_raw parse_raw_with_limits parse_source len
parse_raw-query p none body = refl
parse_raw-query p (some []) body = refl
parse_raw-query p (some (c ∷ s)) body = refl

module _ (http : HttpCrate) (p : PercentDecode) (request : Request http) where
  -- The query and the body fit the byte limit together, a body that is not empty has the media type
  -- of a form and is UTF-8, and the strict parser reads `params` from the two.
  pub record IsReadable (params : Params) : Type 0 where
    pub bytes : Bytes
    pub small : len (or_empty request.query) + length bytes ≤ max_encoded
    pub received :
        http.to_bytes request.body (max_encoded - len (or_empty request.query)) ≡ some bytes
    pub typed : (bytes ≡ []) ⊎ IsForm http (http.header request.headers (codes "content-type"))
    pub body : Option Text
    pub decoded : IsBody bytes body
    pub parsed : parse_notify_params p request.query body ≡ ok params

  read_sound : (params : Params) → read_notify_params http p request ≡ ok params → IsReadable params
  unfolding read_notify_params parse_notify_params
  read_sound params h =
      let (small, h1) = guard-eq-ok (ltb max_encoded (len (or_empty request.query))) _ _ h in
      let (bytes, got, h2) =
        >>=-eq-ok
          (ok_or (http.to_bytes request.body (max_encoded - len (or_empty request.query))) _) _
          h1 in
      let received = ok_or-eq-ok _ _ got in
      let bound = http.to_bytes-limit request.body _ received in
      let (u, typed, h3) = >>=-eq-ok (check_content_type http bytes _) _ h2 in
      let (body, decoded, h4) = >>=-eq-ok (body_text bytes) _ h3 in
      record {
        bytes = bytes;
        small = ground (arith, small, bound);
        received = received;
        typed = (check_content_type_iff http bytes _).0 typed;
        body = body;
        decoded = (body_text_iff bytes body).0 decoded;
        parsed = ap (λ r. r >>= canonicalize) (sym (parse_raw-query p request.query body)) ∙ h4;
      }

  read_complete :
      (params : Params) → IsReadable params → read_notify_params http p request ≡ ok params
  unfolding read_notify_params parse_notify_params
  read_complete params a =
      let fits : ltb max_encoded (len (or_empty request.query)) ≡ false = ground (arith, a.small) in
      rw (
        fits,
        a.received,
        (check_content_type_iff http a.bytes _).1 a.typed,
        (body_text_iff a.bytes a.body).1 a.decoded,
        parse_raw-query p request.query a.body,
        a.parsed,
      )

module _ (http : HttpCrate) (p : PercentDecode) (pkg : Packages) {S : Type 0}
    (from_ref : S → ProtocolContext pkg.urls) where
  -- The extractor for notifications yields data exactly when the request's query and body fit 16
  -- KiB, a body that is not empty is a form in UTF-8, the strict parser reads parameters from them,
  -- and these are an authentic notification for the context of the state with those data.
  pub verified_notify_iff :
      (request : Request http) (state : S) (n : NotifyData pkg.dec)
      → (verified_notify http p pkg from_ref request state ≡ extracted n) ↔ (
          (params : Params) × IsReadable http p request params
          × IsAuthentic pkg.dec pkg.digest
              (from_ref state).signer
              (from_ref state).config.pid
              params
              n)
  unfolding verified_notify verify_context or_rejected
  verified_notify_iff request state n =
      let ctx = from_ref state in
      let iff = verify_notify_iff pkg.dec pkg.digest ctx.signer ctx.config.pid in
      (
        λ h.
            (let (params, got, checked) =
                >>=-eq-ok (read_notify_params http p request) _ (or_rejected-eq-extracted _ _ h) in
              (params, read_sound http p request params got, (iff params n).0 checked)),
        λ a. rw (read_complete http p request a.0 a.1, (iff a.0 n).1 a.2),
      )
