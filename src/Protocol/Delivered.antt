-- ===== src/Protocol/Delivered.antt =====
-- What the gateway reads of a prepared form.
use epay_sdk_rust.Common.{◌≡◌, subst, true, none, some, arith, All}
use epay_sdk_rust.Text.{Text, codes}
use epay_sdk_rust.Crates.Percent.{PercentDecode}
use epay_sdk_rust.Signer.{verify, sign_with_params}
use epay_sdk_rust.Params.{Params, get}
use epay_sdk_rust.Params.Few.{Fits, insert-Fits, insert_opt-Fits}
use epay_sdk_rust.Params.Valid.{empty-IsValid}
use epay_sdk_rust.Params.Redacted.{encode}
use epay_sdk_rust.Error.{ok, >>=-eq-ok, ok-injective}
use epay_sdk_rust.Validation.Callback.{validate_request_size}
use epay_sdk_rust.Payment.{FormPaymentRequest, prepare_form}
use epay_sdk_rust.Payment.Callbacks.{ResolvedCallbacks}
use epay_sdk_rust.Notify.Canonical.{parse_notify_params}
use epay_sdk_rust.Notify.Encoded.{FormCodec, IsSendablePair, parse_notify_params-encode}
use epay_sdk_rust.Protocol.{Packages, ProtocolContext, base_params, unsigned_form, form_params}
use epay_sdk_rust.Protocol.Signed.{form_params-IsSignedForm}

module _ (pkg : Packages) (ctx : ProtocolContext pkg.urls) where
  unsigned_form-Fits :
      (req : FormPaymentRequest pkg.dec) (callbacks : ResolvedCallbacks)
      → Fits 9 (unsigned_form pkg ctx req callbacks)
  unfolding unsigned_form base_params
  unsigned_form-Fits req callbacks =
      let p₀ : Fits 1 _ = insert-Fits _ _ (empty-IsValid, omega arith) in
      let p₂ : Fits 3 _ = insert-Fits _ _ (insert-Fits _ _ p₀) in
      let p₅ : Fits 6 _ = insert-Fits _ _ (insert-Fits _ _ (insert_opt-Fits _ _ p₂)) in
      insert_opt-Fits _ _ (insert_opt-Fits _ _ (insert_opt-Fits _ _ p₅))

  form_params-Fits :
      (req : FormPaymentRequest pkg.dec) {params : Params}
      → form_params pkg ctx req ≡ ok params
      → Fits 11 params
  unfolding form_params sign_with_params
  form_params-Fits req h =
      let (callbacks, prepared, h₁) =
        >>=-eq-ok (prepare_form pkg.dec pkg.urls req ctx.config) _ h in
      let (_, small, h₂) = >>=-eq-ok (validate_request_size pkg.enc _) _ h₁ in
      subst (Fits 11) (ok-injective h₂)
        (insert-Fits _ _ (insert-Fits _ _ (unsigned_form-Fits req callbacks)))

  module _ {p : PercentDecode} (codec : FormCodec pkg.enc p) where
    -- The parameters of a form payment, if they are Unicode texts, survive the way to the payment
    -- page: their encoding is read back as the same parameters by a strict parser, and they verify
    -- under the merchant key with the `sign` among them.
    pub form_params-delivered :
        (req : FormPaymentRequest pkg.dec) {params : Params}
        → form_params pkg ctx req ≡ ok params
        → All IsSendablePair params.inner
        → (parse_notify_params p (some (encode pkg.enc params)) none ≡ ok params)
          × (signature : Text) × (get params (codes "sign") ≡ some signature)
          × (verify pkg.digest ctx.signer params signature ≡ true)
    unfolding encode
    form_params-delivered req {params} h texts =
        let (valid, few) = form_params-Fits req h in
        let (_, form) = form_params-IsSignedForm pkg ctx req h in
        let small = form.fits in
        (
          parse_notify_params-encode codec params valid texts (omega arith) (omega arith),
          form.signature,
          form.has_sign,
          form.verifies,
        )
