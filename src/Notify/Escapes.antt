-- ===== src/Notify/Escapes.antt =====
-- The grammar of percent encoding, and the decoding of a component.
use epay_sdk_rust.Common.{ℕ, ◌≡◌, refl, ◌≢◌, ◌↔◌, inl, inr, true, [], ◌∷◌, arith, ◌==◌, Bool-cases}
use epay_sdk_rust.Text.{Text, Bytes, as_bytes, is_ascii_hexdigit}
use epay_sdk_rust.Error.{ok}
use epay_sdk_rust.Notify.{is_escaped, validate_percent_encoding}

-- Text in which every percent sign begins an escape of two hexadecimal digits.
pub data IsWellEscaped : Bytes → Type 0 where
  nothing : IsWellEscaped []
  plain : {b : ℕ} {bytes : Bytes} → b ≢ b'%' → IsWellEscaped bytes → IsWellEscaped (b ∷ bytes)
  escape :
      {b h l : ℕ} {bytes : Bytes}
      → b ≡ b'%'
      → is_ascii_hexdigit h ≡ true
      → is_ascii_hexdigit l ≡ true
      → IsWellEscaped bytes
      → IsWellEscaped (b ∷ h ∷ l ∷ bytes)

is_escaped_sound : (bytes : Bytes) → is_escaped bytes ≡ true → IsWellEscaped bytes
unfolding is_escaped
is_escaped_sound [] h = nothing
is_escaped_sound (b ∷ []) h = plain (ground arith) nothing
is_escaped_sound (b ∷ c ∷ []) h = plain (ground arith) (is_escaped_sound (c ∷ []) (ground arith))
is_escaped_sound (b ∷ c ∷ l ∷ rest) h = elim (Bool-cases (b == b'%')) [
  | inl e ↦
      escape (ground arith) (ground arith) (ground arith) (is_escaped_sound rest (ground arith))
  | inr n ↦ plain (ground arith) (is_escaped_sound (c ∷ l ∷ rest) (ground arith))
]

hexdigit_not_percent : (c : ℕ) → is_ascii_hexdigit c ≡ true → c ≢ b'%'
unfolding is_ascii_hexdigit
hexdigit_not_percent c h = ground arith

is_escaped-plain :
    (b : ℕ) (bytes : Bytes) → b ≢ b'%' → is_escaped bytes ≡ true → is_escaped (b ∷ bytes) ≡ true
unfolding is_escaped
is_escaped-plain b [] n h = ground arith
is_escaped-plain b (c ∷ []) n h = ground arith
is_escaped-plain b (c ∷ l ∷ rest) n h = ground arith

is_escaped_complete : (bytes : Bytes) → IsWellEscaped bytes → is_escaped bytes ≡ true
unfolding is_escaped
is_escaped_complete bytes nothing = refl
is_escaped_complete bytes (plain {b = b} {bytes = r} n w) =
    is_escaped-plain b r n (is_escaped_complete r w)
is_escaped_complete bytes (escape {b = b} {h = h} {l = l} {bytes = r} e hh hl w) =
    let rest = is_escaped_complete r w in ground arith

-- The index loop over the bytes accepts exactly the text in which every percent sign begins an
-- escape of two hexadecimal digits, the last three bytes included.
pub validate_percent_encoding_iff :
    (s : Text) → (validate_percent_encoding s ≡ ok tt) ↔ IsWellEscaped (as_bytes s)
validate_percent_encoding_iff s = (
  λ h. is_escaped_sound (as_bytes s) (unfold validate_percent_encoding in ground arith),
  λ w. unfold validate_percent_encoding in rw (is_escaped_complete (as_bytes s) w),
)
