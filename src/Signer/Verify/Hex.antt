-- ===== src/Signer/Verify/Hex.antt =====
-- The lower-case hexadecimal texts that `hex_lower` writes.
use epay_sdk_rust.Common.{
  ℕ, suc, ◌+◌, ◌/◌, ◌%◌, ◌≤◌, ◌<◌, ◌≡◌, refl, ap, ◌⊎◌, true, [], ◌∷◌, arith, length, All,
}
use epay_sdk_rust.Text.{Text, Bytes, is_ascii_hexdigit, lower, to_ascii_lowercase}
use epay_sdk_rust.Signer.{hex_digit, hex_lower}

abbrev pub IsLowerHex : ℕ → Type 0
IsLowerHex c = (b'0' ≤ c) × (c ≤ b'9') ⊎ (b'a' ≤ c) × (c ≤ b'f')

hex_digit-IsLowerHex : (n : ℕ) → n < 16 → IsLowerHex (hex_digit n)
unfolding hex_digit
hex_digit-IsLowerHex n h = ground arith

pub hex_lower-IsLowerHex : (bs : Bytes) → All (λ b. b < 256) bs → All IsLowerHex (hex_lower bs)
unfolding hex_lower
hex_lower-IsLowerHex [] h = tt
hex_lower-IsLowerHex (b ∷ bs) (hb, hs) = (
  hex_digit-IsLowerHex (b / 16) (omega arith),
  (hex_digit-IsLowerHex (b % 16) (omega arith), hex_lower-IsLowerHex bs hs),
)

pub length-hex_lower : (bs : Bytes) → length (hex_lower bs) ≡ length bs + length bs
unfolding hex_lower
length-hex_lower [] = omega arith
length-hex_lower (b ∷ bs) = omega (arith, length-hex_lower bs)

abbrev pub IsAscii : Text → Type 0
IsAscii = All (λ c. c < 0x80)

pub All-lower :
    (P Q : ℕ → Type 0) (s : Text)
    → ((c : ℕ) → P c → Q (lower c))
    → All P s
    → All Q (to_ascii_lowercase s)
unfolding to_ascii_lowercase
All-lower P Q [] g h = tt
All-lower P Q (c ∷ s) g (hc, hs) = (g c hc, All-lower P Q s g hs)

pub All_of_lower :
    (P Q : ℕ → Type 0) (s : Text)
    → ((c : ℕ) → Q (lower c) → P c)
    → All Q (to_ascii_lowercase s)
    → All P s
unfolding to_ascii_lowercase
All_of_lower P Q [] g h = tt
All_of_lower P Q (c ∷ s) g (hc, hs) = (g c hc, All_of_lower P Q s g hs)

pub length-to_ascii_lowercase : (s : Text) → length (to_ascii_lowercase s) ≡ length s
unfolding to_ascii_lowercase
length-to_ascii_lowercase [] = refl
length-to_ascii_lowercase (c ∷ s) = ap suc (length-to_ascii_lowercase s)

pub lower-ascii : (c : ℕ) → c < 0x80 → lower c < 0x80
unfolding lower
lower-ascii c h = ground arith

pub IsLowerHex-IsAscii : (s : Text) → All IsLowerHex s → IsAscii s
IsLowerHex-IsAscii [] h = tt
IsLowerHex-IsAscii (c ∷ s) (hc, hs) = (omega arith, IsLowerHex-IsAscii s hs)

pub hexdigit_of_lower : (c : ℕ) → IsLowerHex (lower c) → is_ascii_hexdigit c ≡ true
unfolding lower is_ascii_hexdigit
hexdigit_of_lower c h = ground arith

pub lower_hex_fixed : (s : Text) → All IsLowerHex s → to_ascii_lowercase s ≡ s
unfolding to_ascii_lowercase lower
lower_hex_fixed [] h = refl
lower_hex_fixed (c ∷ s) (hc, hs) = ground (arith, lower_hex_fixed s hs)
