-- ===== src/Crates/Percent.antt =====
-- The package `percent-encoding`.
use epay_sdk_rust.Common.{
  ℕ, ◌+◌, ◌-◌, ◌*◌, ◌≡◌, refl, ◌≢◌, Bool, true, not, Option, some, [], ◌∷◌, arith, ltb, ◌==◌,
  if◌then◌else◌, all, All,
}
use epay_sdk_rust.Text.{Text, Bytes, as_bytes}
use epay_sdk_rust.Text.Utf8.{from_utf8}

abbrev pub IsPlain : ℕ → Type 0
IsPlain c = c ≢ b'%'

pub record PercentDecode : Type 0 where
  -- `percent_decode_str(s).decode_utf8()`; `none` is its error
  pub decode_utf8 : Text → Option Text
  pub decode_plain : (s : Text) → All IsPlain s → decode_utf8 s ≡ some s

-- `%XY` as the byte that it stands for
unfoldable pub hex_value : ℕ → ℕ
hex_value c = if ltb c b'A' then c - b'0' else if ltb c b'a' then c - b'A' + 10 else c - b'a' + 10

unfoldable pub unescape : Bytes → Bytes
unfolding hex_value
unescape [] = []
unescape (b ∷ []) = b ∷ []
unescape (b ∷ h ∷ []) = b ∷ h ∷ []
unescape (b ∷ h ∷ l ∷ rest) =
    let escaped = (hex_value h * 16 + hex_value l) ∷ unescape rest in
    let plain = b ∷ unescape (h ∷ l ∷ rest) in if b == b'%' then escaped else plain

unfoldable pub is_plain : ℕ → Bool
is_plain c = not (c == b'%')

unfoldable pub toy_decode : Text → Option Text
unfolding unescape is_plain from_utf8
toy_decode s = if all is_plain s then some s else from_utf8 (unescape (as_bytes s))

all_plain : (s : Text) → All IsPlain s → all is_plain s ≡ true
unfolding is_plain
all_plain [] h = refl
all_plain (c ∷ s) (hc, hs) = ground (arith, all_plain s hs)

pub toy_decode_plain : (s : Text) → All IsPlain s → toy_decode s ≡ some s
unfolding toy_decode
toy_decode_plain s h = ground (arith, all_plain s h)

unfoldable pub toy_percent : PercentDecode
unfolding toy_decode
toy_percent = record { decode_utf8 = toy_decode; decode_plain = toy_decode_plain }
