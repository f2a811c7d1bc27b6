-- ===== src/Axum/Body.antt =====
-- What a body must be for the extractors to read it.
use epay_sdk_rust.Common.{
  ◌≡◌, refl, sym, ap, ◌∙◌, ◌↔◌, ◌⊎◌, inl, inr, true, false, Option, none, some, [], ◌∷◌, arith,
  Option-cases,
}
use epay_sdk_rust.Text.{Text, Bytes, codes, trim, eq_ignore_ascii_case}
use epay_sdk_rust.Text.Utf8.{from_utf8}
use epay_sdk_rust.Crates.Http.{HttpCrate}
use epay_sdk_rust.Error.{ok, ok_or, >>=-eq-ok, ok_or-eq-ok}
use epay_sdk_rust.Axum.{
  first_part, header_part, body_text, is_form_content_type, check_content_type,
}

-- The text that the parser gets of the bytes of a body: none of an empty one.
unfoldable pub IsBody : Bytes → Option Text → Type 0
IsBody [] body = body ≡ none
IsBody (b ∷ bytes) body = (s : Text) × (from_utf8 (b ∷ bytes) ≡ some s) × (body ≡ some s)

pub body_text_iff :
    (bytes : Bytes) (body : Option Text) → (body_text bytes ≡ ok body) ↔ IsBody bytes body
unfolding body_text IsBody
body_text_iff [] body = (λ h. ground (arith, h), λ h. ap ok (sym h))
body_text_iff (b ∷ bytes) body = (
  λ h.
      (let (s, got, e) = >>=-eq-ok (ok_or (from_utf8 (b ∷ bytes)) _) _ h in
        (s, ok_or-eq-ok _ _ got, ground (arith, e))),
  λ (s, got, e). rw (got, e) refl,
)

module _ (http : HttpCrate) where
  open http use {HeaderValue}

  -- The header is there and readable, and its part before a `;` is the media type of a form.
  pub record IsForm (value : Option HeaderValue) : Type 0 where
    pub header : HeaderValue
    pub present : value ≡ some header
    pub text : Text
    pub readable : http.to_str header ≡ some text
    pub media_type :
        eq_ignore_ascii_case
          (trim (first_part text b';'))
          (codes "application/x-www-form-urlencoded")
        ≡ true

  form-none : (v : HeaderValue) → http.to_str v ≡ none → is_form_content_type http (some v) ≡ false
  unfolding is_form_content_type header_part
  form-none v e = rw (is_form_content_type, header_part, e) refl

  form-some :
      (v : HeaderValue) (s : Text)
      → http.to_str v ≡ some s
      → is_form_content_type http (some v)
        ≡ eq_ignore_ascii_case
            (trim (first_part s b';'))
            (codes "application/x-www-form-urlencoded")
  unfolding is_form_content_type header_part
  form-some v s e = rw (is_form_content_type, header_part, e) refl

  is_form_sound :
      (value : Option HeaderValue) → is_form_content_type http value ≡ true → IsForm value
  unfolding is_form_content_type header_part
  is_form_sound none h = cc
  is_form_sound (some v) h = elim (Option-cases (http.to_str v)) [
    | inl unreadable ↦ cc (form-none v unreadable)
    | inr (s, readable) ↦ record {
      header = v;
      present = refl;
      text = s;
      readable = readable;
      media_type = sym (form-some v s readable) ∙ h;
    }
  ]

  is_form_complete :
      (value : Option HeaderValue) → IsForm value → is_form_content_type http value ≡ true
  is_form_complete value a = rw (a.present) (form-some a.header a.text a.readable ∙ a.media_type)

  pub check_content_type_iff :
      (bytes : Bytes) (value : Option HeaderValue)
      → (check_content_type http bytes value ≡ ok tt) ↔ ((bytes ≡ []) ⊎ IsForm value)
  unfolding check_content_type
  check_content_type_iff [] value = (λ h. inl refl, λ h. refl)
  check_content_type_iff (b ∷ bytes) value = (
    λ h. ground (arith, h, is_form_sound value),
    λ a. elim a [ inl absurd ↦ cc | inr form ↦ rw (is_form_complete value form) refl ],
  )
