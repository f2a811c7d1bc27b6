-- ===== src/Notify/Encoded/Escaping.antt =====
-- A small encoder and its decoder: the signs that separate fields are escaped, all else is kept.
use epay_sdk_rust.Common.{
  ℕ, ◌≡◌, refl, sym, ap, ◌∙◌, subst, ◌⊎◌, inl, inr, true, false, some, [], ◌∷◌, ◌++◌, map, arith,
  ◌==◌, if◌then◌else◌, All, All-append,
}
use epay_sdk_rust.Text.{Text, Bytes, encode_utf8, as_bytes, join}
use epay_sdk_rust.Text.Split.{Lacks}
use epay_sdk_rust.Crates.Form.{FormUrlencoded}
use epay_sdk_rust.Crates.Percent.{PercentDecode, IsPlain, unescape}
use epay_sdk_rust.Notify.{is_escaped, plus_to_space}
use epay_sdk_rust.Notify.Encoded.{FormCodec, encoded_pair}

unfoldable pub escape_sign : ℕ → Text
escape_sign c =
    if c == b'%'
    then b'%' ∷ b'2' ∷ b'5' ∷ []
    else if c == b'&'
    then b'%' ∷ b'2' ∷ b'6' ∷ []
    else if c == b'='
    then b'%' ∷ b'3' ∷ b'D' ∷ []
    else if c == b'+'
    then b'%' ∷ b'2' ∷ b'B' ∷ []
    else c ∷ []

unfoldable pub escape_text : Text → Text
escape_text [] = []
escape_text (c ∷ s) = escape_sign c ++ escape_text s

-- a character that is not escaped
abbrev IsKept : ℕ → Type 0
IsKept c =
    (escape_sign c ≡ c ∷ [])
    × ((c == b'%') ≡ false)
    × ((c == b'&') ≡ false)
    × ((c == b'=') ≡ false)
    × ((c == b'+') ≡ false)

sign_cases : (c : ℕ) → (c ≡ b'%') ⊎ (c ≡ b'&') ⊎ (c ≡ b'=') ⊎ (c ≡ b'+') ⊎ IsKept c
unfolding escape_sign
sign_cases c = ground arith

-- a statement about every character holds if it holds of the four signs and of those that are kept
by_sign :
    (P : ℕ → Type 0)
    → P b'%'
    → P b'&'
    → P b'='
    → P b'+'
    → ((c : ℕ) → IsKept c → P c)
    → (c : ℕ) → P c
by_sign P percent ampersand equals plus kept c = elim (sign_cases c) [
  | inl e ↦ subst P (sym e) percent
  | inr (inl e) ↦ subst P (sym e) ampersand
  | inr (inr (inl e)) ↦ subst P (sym e) equals
  | inr (inr (inr (inl e))) ↦ subst P (sym e) plus
  | inr (inr (inr (inr k))) ↦ kept c k
]

escape_sign-Lacks-ampersand : (c : ℕ) → Lacks b'&' (escape_sign c)
unfolding escape_sign
escape_sign-Lacks-ampersand =
    by_sign (λ c. Lacks b'&' (escape_sign c)) (refl, (refl, (refl, tt))) (refl, (refl, (refl, tt)))
      (refl, (refl, (refl, tt))) (refl, (refl, (refl, tt))) (λ c k. rw (k.0) (k.2, tt))

escape_sign-Lacks-equals : (c : ℕ) → Lacks b'=' (escape_sign c)
unfolding escape_sign
escape_sign-Lacks-equals =
    by_sign (λ c. Lacks b'=' (escape_sign c)) (refl, (refl, (refl, tt))) (refl, (refl, (refl, tt)))
      (refl, (refl, (refl, tt))) (refl, (refl, (refl, tt))) (λ c k. rw (k.0) (k.3, tt))

-- a character that is not `%` is read as it is
unescape-kept : (c : ℕ) (t : Text) → (c == b'%') ≡ false → unescape (c ∷ t) ≡ c ∷ unescape t
unfolding unescape
unescape-kept c [] h = refl
unescape-kept c (a ∷ []) h = refl
unescape-kept c (a ∷ b ∷ t) h = rw (h)

unescape-sign : (c : ℕ) (t : Text) → unescape (escape_sign c ++ t) ≡ c ∷ unescape t
unfolding escape_sign
unescape-sign =
    by_sign (λ c. (t : Text) → unescape (escape_sign c ++ t) ≡ c ∷ unescape t)
      (λ t. unfold unescape in refl) (λ t. unfold unescape in refl) (λ t. unfold unescape in refl)
      (λ t. unfold unescape in refl) (λ c k t. rw (k.0) (unescape-kept c t k.1))

plus_to_space-sign :
    (c : ℕ) (t : Text) → plus_to_space (escape_sign c ++ t) ≡ escape_sign c ++ plus_to_space t
unfolding escape_sign plus_to_space
plus_to_space-sign =
    by_sign
      (λ c. (t : Text) → plus_to_space (escape_sign c ++ t) ≡ escape_sign c ++ plus_to_space t)
      (λ t. refl) (λ t. refl) (λ t. refl) (λ t. refl) (λ c k t. rw (k.0, k.4))

is_escaped-plain : (b : ℕ) (t : Bytes) → (b == b'%') ≡ false → is_escaped (b ∷ t) ≡ is_escaped t
unfolding is_escaped
is_escaped-plain b [] h = rw (h)
is_escaped-plain b (a ∷ []) h = rw (h)
is_escaped-plain b (a ∷ c ∷ t) h = rw (h)

is_escaped-append :
    (bytes t : Bytes)
    → All (λ b. (b == b'%') ≡ false) bytes
    → is_escaped (bytes ++ t) ≡ is_escaped t
is_escaped-append [] t h = refl
is_escaped-append (b ∷ bytes) t (hb, hs) =
    is_escaped-plain b (bytes ++ t) hb ∙ is_escaped-append bytes t hs

encode_utf8-plain : (c : ℕ) → (c == b'%') ≡ false → All (λ b. (b == b'%') ≡ false) (encode_utf8 c)
unfolding encode_utf8
encode_utf8-plain c h = ground (arith, h)

is_escaped-sign :
    (c : ℕ) (t : Text) → is_escaped (as_bytes (escape_sign c ++ t)) ≡ is_escaped (as_bytes t)
unfolding escape_sign as_bytes
is_escaped-sign =
    by_sign (λ c. (t : Text) → is_escaped (as_bytes (escape_sign c ++ t)) ≡ is_escaped (as_bytes t))
      (λ t. unfold is_escaped in refl) (λ t. unfold is_escaped in refl)
      (λ t. unfold is_escaped in refl) (λ t. unfold is_escaped in refl)
      (λ c k t. rw (k.0) (is_escaped-append (encode_utf8 c) (as_bytes t) (encode_utf8-plain c k.1)))

escape_text-Lacks :
    (sep : ℕ) → ((c : ℕ) → Lacks sep (escape_sign c)) → (s : Text) → Lacks sep (escape_text s)
unfolding escape_text
escape_text-Lacks sep h [] = tt
escape_text-Lacks sep h (c ∷ s) =
    All-append (λ a. (a == sep) ≡ false) (escape_sign c) (escape_text s) (h c)
      (escape_text-Lacks sep h s)

is_escaped-escape_text : (s : Text) → is_escaped (as_bytes (escape_text s)) ≡ true
unfolding escape_text
is_escaped-escape_text [] = unfold is_escaped as_bytes in refl
is_escaped-escape_text (c ∷ s) = is_escaped-sign c (escape_text s) ∙ is_escaped-escape_text s

unescape-escape_text : (s : Text) → unescape (plus_to_space (escape_text s)) ≡ s
unfolding escape_text
unescape-escape_text [] = unfold plus_to_space unescape in refl
unescape-escape_text (c ∷ s) = rw (
  plus_to_space-sign c (escape_text s),
  unescape-sign c (plus_to_space (escape_text s)),
  unescape-escape_text s,
)

pub unescape-IsPlain : (s : Text) → All IsPlain s → unescape s ≡ s
unescape-IsPlain [] h = unfold unescape in refl
unescape-IsPlain (c ∷ s) (hc, hs) =
    let plain : (c == b'%') ≡ false = ground (arith, hc) in
    rw (unescape-kept c s plain, unescape-IsPlain s hs)

unfoldable pub sign_form : FormUrlencoded
sign_form = record {
  serialize = λ pairs. join (map (encoded_pair escape_text) pairs) (b'&' ∷ []);
  parse = λ s. [];
}

unfoldable pub sign_percent : PercentDecode
sign_percent = record {
  decode_utf8 = λ s. some (unescape s);
  decode_plain = λ s h. ap some (unescape-IsPlain s h);
}

pub sign_codec : FormCodec sign_form sign_percent
unfolding sign_form sign_percent
sign_codec = record {
  component = escape_text;
  serialize_lem = λ pairs. refl;
  no_ampersand = escape_text-Lacks b'&' escape_sign-Lacks-ampersand;
  no_equals = escape_text-Lacks b'=' escape_sign-Lacks-equals;
  escaped = is_escaped-escape_text;
  decoded = λ s h. ap some (unescape-escape_text s);
}
