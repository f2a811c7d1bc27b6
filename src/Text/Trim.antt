-- ===== src/Text/Trim.antt =====
-- Trimming text that has no white space.
use epay_sdk_rust.Common.{
  ℕ, ◌≡◌, refl, ap, ◌∙◌, false, [], ◌∷◌, reverse, reverse-reverse, All, All-reverse,
}
use epay_sdk_rust.Text.{Text, is_whitespace, trim_start, trim_end, trim}

abbrev pub IsVisible : ℕ → Type 0
IsVisible c = is_whitespace c ≡ false

trim_start_visible : (s : Text) → All IsVisible s → trim_start s ≡ s
unfolding trim_start
trim_start_visible [] h = refl
trim_start_visible (c ∷ s) (hc, hs) = rw hc

-- Text with no white space is its own trimmed form.
pub trim_visible : (s : Text) → All IsVisible s → trim s ≡ s
unfolding trim trim_end
trim_visible s h =
    ap (λ t. reverse (trim_start (reverse t))) (trim_start_visible s h)
    ∙ ap reverse (trim_start_visible (reverse s) (All-reverse IsVisible s h))
    ∙ reverse-reverse s
