-- ===== src/Text/Ascii.antt =====
-- ASCII text is its own UTF-8 form.
use epay_sdk_rust.Common.{
  ℕ, ◌<◌, ◌≡◌, refl, ap, Bool, true, [], ◌∷◌, ◌++◌, append_assoc, arith, &&_iff, length, all, All,
}
use epay_sdk_rust.Text.{Text, as_bytes, len, is_ascii_alphanumeric, is_ascii_hexdigit}

pub as_bytes-append : (s t : Text) → as_bytes (s ++ t) ≡ as_bytes s ++ as_bytes t
unfolding as_bytes
as_bytes-append [] t = refl
as_bytes-append (c ∷ s) t = simp (as_bytes-append s t, append_assoc)

pub as_bytes_of_ascii : (s : Text) → All (λ c. c < 0x80) s → as_bytes s ≡ s
unfolding as_bytes
as_bytes_of_ascii [] h = refl
as_bytes_of_ascii (c ∷ s) (hc, h) = ground (arith, as_bytes_of_ascii s h)

pub len_of_ascii : (s : Text) → All (λ c. c < 0x80) s → len s ≡ length s
unfolding len
len_of_ascii s h = ap length (as_bytes_of_ascii s h)

pub All_of_all :
    (p : ℕ → Bool) (P : ℕ → Type 0) (s : Text)
    → ((c : ℕ) → p c ≡ true → P c)
    → all p s ≡ true
    → All P s
All_of_all p P [] f h = tt
All_of_all p P (c ∷ s) f h =
    let (hc, hs) = (&&_iff (p c) (all p s)).0 h in (f c hc, All_of_all p P s f hs)

pub all_of_All :
    (p : ℕ → Bool) (P : ℕ → Type 0) (s : Text)
    → ((c : ℕ) → P c → p c ≡ true)
    → All P s
    → all p s ≡ true
all_of_All p P [] f h = refl
all_of_All p P (c ∷ s) f (hc, hs) = (&&_iff (p c) (all p s)).1 (f c hc, all_of_All p P s f hs)

pub is_ascii_hexdigit_ascii : (c : ℕ) → is_ascii_hexdigit c ≡ true → c < 0x80
unfolding is_ascii_hexdigit
is_ascii_hexdigit_ascii c h = ground arith

pub is_ascii_alphanumeric_ascii : (c : ℕ) → is_ascii_alphanumeric c ≡ true → c < 0x80
unfolding is_ascii_alphanumeric
is_ascii_alphanumeric_ascii c h = ground arith
