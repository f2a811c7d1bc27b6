-- ===== src/Protocol/Signed.antt =====
-- What a prepared form guarantees.
use epay_sdk_rust.Common.{◌≤◌, ◌≡◌, subst, true, some, arith}
use epay_sdk_rust.Text.{Text, codes, len}
use epay_sdk_rust.Signer.{sign, verify, sign_with_params, sign_type_md5}
use epay_sdk_rust.Signer.Verify.{lower-sign, verify-sign_with_params}
use epay_sdk_rust.Params.{Params, get}
use epay_sdk_rust.Error.{ok, >>=-eq-ok, ok-injective}
use epay_sdk_rust.Validation.{validate_encoded_size}
use epay_sdk_rust.Validation.Callback.{validate_request_size}
use epay_sdk_rust.Payment.{FormPaymentRequest, prepare_form}
use epay_sdk_rust.Payment.Callbacks.{ResolvedCallbacks}
use epay_sdk_rust.Protocol.Filled.{IsFilled, unsigned_form-IsFilled, IsFilled-same}
use epay_sdk_rust.Protocol.{Packages, ProtocolContext, unsigned_form, form_params}

module _ (pkg : Packages) (ctx : ProtocolContext pkg.urls) where
  -- The parameters verify against their own `sign` under the merchant key, and fit the size limit.
  pub record IsSignedForm (params : Params) : Type 0 where
    pub signature : Text
    pub has_sign : get params (codes "sign") ≡ some signature
    pub has_sign_type : get params (codes "sign_type") ≡ some sign_type_md5
    pub verifies : verify pkg.digest ctx.signer params signature ≡ true
    pub fits : len (pkg.enc.serialize params.inner) ≤ 4096

  size_bound :
      (params : Params)
      → validate_request_size pkg.enc params ≡ ok tt
      → len (pkg.enc.serialize params.inner) ≤ 4096
  unfolding validate_request_size validate_encoded_size
  size_bound params h = ground arith

  -- The parameters of a form payment are exactly the merchant id, the order number, the callbacks
  -- that the request is prepared with, the name, the amount, and the channel, the parameter and the
  -- site name that are given, each under its own name and none of them empty, beside `sign` and
  -- `sign_type`; they verify under the merchant key with the `sign` that they carry, and their
  -- encoding has at most 4096 bytes.
  pub form_params-IsSignedForm :
      (req : FormPaymentRequest pkg.dec) {params : Params}
      → form_params pkg ctx req ≡ ok params
      → ((callbacks : ResolvedCallbacks) × (prepare_form pkg.dec pkg.urls req ctx.config
            ≡ ok callbacks)
          × IsFilled pkg ctx req callbacks params)
        × IsSignedForm params
  unfolding form_params
  form_params-IsSignedForm req h =
      let (callbacks, prepared, h₁) =
        >>=-eq-ok (prepare_form pkg.dec pkg.urls req ctx.config) _ h in
      let p = unsigned_form pkg ctx req callbacks in
      let signed = sign_with_params pkg.digest ctx.signer p in
      let (_, small, h₂) = >>=-eq-ok (validate_request_size pkg.enc signed) _ h₁ in
      let (valid, has, typed, rest) =
        verify-sign_with_params pkg.digest ctx.signer p (sign pkg.digest ctx.signer p)
          (lower-sign pkg.digest ctx.signer p) in
      let form : IsSignedForm signed = record {
        signature = sign pkg.digest ctx.signer p;
        has_sign = has;
        has_sign_type = typed;
        verifies = valid;
        fits = size_bound signed small;
      } in
      let filled =
        IsFilled-same pkg ctx req callbacks rest (unsigned_form-IsFilled pkg ctx req callbacks) in
      let same = ok-injective h₂ in
      (
        (callbacks, prepared, subst (IsFilled pkg ctx req callbacks) same filled),
        subst IsSignedForm same form,
      )
