-- ===== src/Signer/Verify.antt =====
-- What a signature covers, and which signatures are accepted.
pub mod Hex
use epay_sdk_rust.Common.{
  ◌<◌, ◌≡◌, refl, sym, ap, ◌∙◌, subst, ◌↔◌, inl, inr, Bool, true, false, not, ◌&&◌, ◌||◌, some,
  List, [], ◌∷◌, ◌++◌, arith, ◌==◌, if◌then◌else◌, Bool-cases, length, all, is_nil, All,
}
use epay_sdk_rust.Text.{
  Text, codes, as_bytes, len, text_eq, is_ascii_hexdigit, to_ascii_lowercase, join,
}
use epay_sdk_rust.Text.Laws.{text_eq_iff, text_compare_eq, all-as_bytes}
use epay_sdk_rust.Text.Ascii.{
  as_bytes_of_ascii, len_of_ascii, All_of_all, all_of_All, is_ascii_hexdigit_ascii,
}
use epay_sdk_rust.BTreeMap
use epay_sdk_rust.Crates.Digest.{Digest}
use epay_sdk_rust.Params.{Params, insert, get, parts, is_unsigned, sign_payload}
use epay_sdk_rust.Params.Laws.{get-insert}
use epay_sdk_rust.Signer.{
  Signer, hex_digit, hex_lower, sign, verify, sign_with_params, sign_type_md5,
}
use epay_sdk_rust.Signer.Verify.Hex.{
  IsLowerHex, hex_lower-IsLowerHex, length-hex_lower, IsAscii, All-lower, All_of_lower,
  length-to_ascii_lowercase, lower-ascii, IsLowerHex-IsAscii, hexdigit_of_lower, lower_hex_fixed,
}

parts-insert :
    (k v : Text) (m : List (Text × Text))
    → is_unsigned k ≡ true
    → parts (BTreeMap.insert k v m) ≡ parts m
unfolding parts BTreeMap.insert
parts-insert k v [] h = ground arith
parts-insert k v ((j, w) ∷ m) h = ground (arith, parts-insert k v m h, text_compare_eq k j)

sign_payload-insert :
    (k v : Text) (p : Params) → is_unsigned k ≡ true → sign_payload (insert k v p) ≡ sign_payload p
unfolding sign_payload insert
sign_payload-insert k [] p h = refl
sign_payload-insert k (c ∷ v) p h =
    ap (λ ps. join ps (codes "&")) (parts-insert k (c ∷ v) p.inner h)

module _ (d : Digest) (signer : Signer) (params : Params) where
  pub sign-IsLowerHex : All IsLowerHex (sign d signer params)
  unfolding sign
  sign-IsLowerHex = hex_lower-IsLowerHex _ (d.md5-IsByte _)

  pub lower-sign : to_ascii_lowercase (sign d signer params) ≡ sign d signer params
  lower-sign = lower_hex_fixed (sign d signer params) sign-IsLowerHex

  pub length-sign : length (sign d signer params) ≡ 32
  unfolding sign
  length-sign = omega (
    arith,
    length-hex_lower (d.md5 (as_bytes (sign_payload params) ++ as_bytes signer.key)),
    d.length-md5 (as_bytes (sign_payload params) ++ as_bytes signer.key),
  )

  as_bytes-sign : as_bytes (sign d signer params) ≡ sign d signer params
  as_bytes-sign = as_bytes_of_ascii _ (IsLowerHex-IsAscii _ sign-IsLowerHex)

  -- the two tests before the comparison
  abbrev well_formed : Text → Bool
  well_formed received =
      not (not (len received == 32) || not (all is_ascii_hexdigit (as_bytes received)))

  hexdigits-IsAscii : (s : Text) → all is_ascii_hexdigit (as_bytes s) ≡ true → IsAscii s
  hexdigits-IsAscii s h =
      All_of_all is_ascii_hexdigit (λ c. c < 0x80) s is_ascii_hexdigit_ascii
        (sym (all-as_bytes is_ascii_hexdigit is_ascii_hexdigit_ascii s) ∙ h)

  as_bytes-lower : (s : Text) → IsAscii s → as_bytes (to_ascii_lowercase s) ≡ to_ascii_lowercase s
  as_bytes-lower s h =
      as_bytes_of_ascii _ (All-lower (λ c. c < 0x80) (λ c. c < 0x80) s lower-ascii h)

  verify_sound :
      (received : Text)
      → verify d signer params received ≡ true
      → to_ascii_lowercase received ≡ sign d signer params
  unfolding verify
  verify_sound received h = elim (Bool-cases (all is_ascii_hexdigit (as_bytes received))) [
    | inl hex ↦ cc (
      (d.constant_time_eq_iff (as_bytes (sign d signer params))
            (as_bytes (to_ascii_lowercase received))).0
          (ground arith),
      as_bytes-sign,
      as_bytes-lower received (hexdigits-IsAscii received hex),
    )
    | inr no_hex ↦ ground arith
  ]

  to_ascii_lowercase-IsLowerHex :
      (received : Text)
      → to_ascii_lowercase received ≡ sign d signer params
      → All IsLowerHex (to_ascii_lowercase received)
  to_ascii_lowercase-IsLowerHex received e = subst (All IsLowerHex) (sym e) sign-IsLowerHex

  verify_complete :
      (received : Text)
      → to_ascii_lowercase received ≡ sign d signer params
      → verify d signer params received ≡ true
  unfolding verify
  verify_complete received e =
      let digits =
        All_of_lower (λ c. is_ascii_hexdigit c ≡ true) IsLowerHex received hexdigit_of_lower
          (to_ascii_lowercase-IsLowerHex received e) in
      let hex =
        all_of_All is_ascii_hexdigit (λ c. is_ascii_hexdigit c ≡ true) received (λ c h. h) digits in
      let bytes_hex = all-as_bytes is_ascii_hexdigit is_ascii_hexdigit_ascii received ∙ hex in
      let ascii = hexdigits-IsAscii received bytes_hex in
      let size : len received ≡ 32 = omega (
        arith,
        len_of_ascii received ascii,
        length-to_ascii_lowercase received,
        ap length e,
        length-sign,
      ) in
      let same =
        (d.constant_time_eq_iff (as_bytes (sign d signer params))
            (as_bytes (to_ascii_lowercase received))).1
          (as_bytes-sign ∙ sym e ∙ sym (as_bytes-lower received ascii)) in
      ground (arith, size, bytes_hex, same)

  -- A signature is accepted exactly when its lower-case form is the computed signature: no other
  -- text passes, whatever its length and characters.
  pub verify_iff :
      (received : Text)
      → (verify d signer params received ≡ true)
        ↔ (to_ascii_lowercase received ≡ sign d signer params)
  verify_iff received = (verify_sound received, verify_complete received)

module _ (d : Digest) (signer : Signer) where
  sign-insert :
      (k v : Text) (p : Params)
      → is_unsigned k ≡ true
      → sign d signer (insert k v p) ≡ sign d signer p
  unfolding sign
  sign-insert k v p h =
      ap (λ payload. hex_lower (d.md5 (as_bytes payload ++ as_bytes signer.key)))
        (sign_payload-insert k v p h)

  sign-sign_with_params :
      (p : Params) → sign d signer (sign_with_params d signer p) ≡ sign d signer p
  unfolding sign_with_params is_unsigned
  sign-sign_with_params p =
      sign-insert (codes "sign_type") sign_type_md5 (insert (codes "sign") (sign d signer p) p) refl
      ∙ sign-insert (codes "sign") (sign d signer p) p refl

  pub sign-not_nil : (p : Params) → is_nil (sign d signer p) ≡ false
  sign-not_nil p = ground (arith, length-sign d signer p)

  get-sign_with_params :
      (p : Params) (k : Text)
      → get (sign_with_params d signer p) k ≡ (
          if text_eq (codes "sign_type") k && true
          then some sign_type_md5
          else if text_eq (codes "sign") k && not (is_nil (sign d signer p))
          then some (sign d signer p)
          else get p k)
  unfolding sign_with_params
  get-sign_with_params p k =
      get-insert (codes "sign_type") sign_type_md5 (insert (codes "sign") (sign d signer p) p) k
      ∙ ap (λ o. if text_eq (codes "sign_type") k && true then some sign_type_md5 else o)
          (get-insert (codes "sign") (sign d signer p) p k)

  -- Adding the signature leaves the payload as it was: the signed map verifies with its own
  -- signature, in any case of the letters, carries it under `sign` beside `sign_type=MD5`, and keeps
  -- every other field.
  pub verify-sign_with_params :
      (p : Params) (received : Text)
      → to_ascii_lowercase received ≡ sign d signer p
      → (verify d signer (sign_with_params d signer p) received ≡ true)
        × (get (sign_with_params d signer p) (codes "sign") ≡ some (sign d signer p))
        × (get (sign_with_params d signer p) (codes "sign_type") ≡ some sign_type_md5)
        × ((k : Text) → is_unsigned k ≡ false → get (sign_with_params d signer p) k ≡ get p k)
  verify-sign_with_params p received e = (
    (verify_iff d signer (sign_with_params d signer p) received).1
        (e ∙ sym (sign-sign_with_params p)),
    get-sign_with_params p (codes "sign") ∙ unfold text_eq in ground (arith, sign-not_nil p),
    get-sign_with_params p (codes "sign_type") ∙ unfold text_eq in refl,
    λ k h.
        get-sign_with_params p k
        ∙ unfold is_unsigned in
          ground (
            arith,
            h,
            text_eq_iff k (codes "sign"),
            text_eq_iff k (codes "sign_type"),
            text_eq_iff (codes "sign") k,
            text_eq_iff (codes "sign_type") k,
          ),
  )
