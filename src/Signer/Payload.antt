-- ===== src/Signer/Payload.antt =====
-- Which fields of a map its signature depends on.
use epay_sdk_rust.Common.{
  ◌≡◌, refl, sym, ap, ◌∙◌, true, false, none, List, [], ◌∷◌, ◌++◌, arith, if◌then◌else◌,
}
use epay_sdk_rust.Text.{Text, codes, as_bytes, join}
use epay_sdk_rust.Text.Laws.{text_eq_iff, text_compare_eq}
use epay_sdk_rust.BTreeMap
use epay_sdk_rust.Crates.Digest.{Digest}
use epay_sdk_rust.Params.{Params, get, remove, parts, is_unsigned, sign_payload}
use epay_sdk_rust.Params.Laws.{get-remove}
use epay_sdk_rust.Params.Valid.{IsValid, remove-IsValid, params_ext}
use epay_sdk_rust.Signer.{Signer, hex_lower, sign}

parts-erase :
    (k : Text) (m : List (Text × Text))
    → is_unsigned k ≡ true
    → parts (BTreeMap.erase k m) ≡ parts m
unfolding parts BTreeMap.erase
parts-erase k [] h = refl
parts-erase k ((j, w) ∷ m) h = ground (arith, parts-erase k m h, text_compare_eq k j)

-- the map without `sign` and `sign_type`
abbrev signed_fields : Params → Params
signed_fields p = (remove (codes "sign") (remove (codes "sign_type") p).0).0

sign_payload-signed_fields : (p : Params) → sign_payload (signed_fields p) ≡ sign_payload p
unfolding sign_payload remove is_unsigned
sign_payload-signed_fields p =
    ap (λ ps. join ps (codes "&"))
      (parts-erase (codes "sign") (BTreeMap.erase (codes "sign_type") p.inner) refl
        ∙ parts-erase (codes "sign_type") p.inner refl)

get-signed_fields :
    (p : Params) (k : Text)
    → IsValid p
    → get (signed_fields p) k ≡ (if is_unsigned k then none else get p k)
unfolding is_unsigned
get-signed_fields p k h = ground (
  arith,
  get-remove (codes "sign") (remove (codes "sign_type") p).0 k
      (remove-IsValid (codes "sign_type") h).sorted,
  get-remove (codes "sign_type") p k h.sorted,
  text_eq_iff k (codes "sign"),
  text_eq_iff k (codes "sign_type"),
  text_eq_iff (codes "sign") k,
  text_eq_iff (codes "sign_type") k,
)

-- The signature depends on the signed fields alone: two maps that agree on every field but `sign`
-- and `sign_type`, in whatever order these were inserted, have the same signature.
pub sign_ext :
    (d : Digest) (signer : Signer) (p q : Params)
    → IsValid p
    → IsValid q
    → ((k : Text) → is_unsigned k ≡ false → get p k ≡ get q k)
    → sign d signer p ≡ sign d signer q
unfolding sign
sign_ext d signer p q hp hq same =
    let valid = λ (r : Params) (h : IsValid r).
      remove-IsValid (codes "sign") (remove-IsValid (codes "sign_type") h) in
    ap (λ payload. hex_lower (d.md5 (as_bytes payload ++ as_bytes signer.key)))
      (sym (sign_payload-signed_fields p)
        ∙ ap sign_payload (
            params_ext (valid p hp) (valid q hq)
              λ k. ground (arith, same k, get-signed_fields p k hp, get-signed_fields q k hq))
        ∙ sign_payload-signed_fields q)
