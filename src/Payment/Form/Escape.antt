-- ===== src/Payment/Form/Escape.antt =====
-- Escaped text in an HTML attribute: what it cannot contain, and that it is read back.
use epay_sdk_rust.Common.{
  ℕ, zero, suc, ◌≤◌, ◌≡◌, refl, ap, ◌∙◌, ◌≢◌, Option, none, some, List, [], ◌∷◌, ◌++◌, arith,
  length, length-append, All, All-append,
}
use epay_sdk_rust.Text.{Text, codes, strip_prefix}
use epay_sdk_rust.Payment.Form.{escape_char, html_escape}

-- no quote and no angle bracket
abbrev pub IsInert : ℕ → Type 0
IsInert c = (c ≢ b'<') × (c ≢ b'>') × (c ≢ b'"') × (c ≢ b'\'')

-- the character references that a browser reads back, by their texts
abbrev pub references : List (Text × ℕ)
references =
    (codes "&amp;", b'&')
    ∷ (codes "&lt;", b'<')
    ∷ (codes "&gt;", b'>')
    ∷ (codes "&quot;", b'"')
    ∷ (codes "&#39;", b'\'')
    ∷ []

-- the reference at the front of the text, and the rest
unfoldable pub read_reference : List (Text × ℕ) → Text → Option (ℕ × Text)
read_reference [] s = none
read_reference ((name, c) ∷ names) s = elim (strip_prefix s name) [
  | some rest ↦ some (c, rest)
  | none ↦ read_reference names s
]

-- The characters that the text stands for; the fuel bounds their number.
unfoldable pub read_text : ℕ → Text → Text
read_text zero s = []
read_text (suc f) [] = []
read_text (suc f) (c ∷ s) = elim (read_reference references (c ∷ s)) [
  | some (d, rest) ↦ d ∷ read_text f rest
  | none ↦ c ∷ read_text f s
]

escape_char-IsInert : (c : ℕ) → All IsInert (escape_char c)
unfolding escape_char
escape_char-IsInert c = ground arith

html_escape-IsInert : (s : Text) → All IsInert (html_escape s)
unfolding html_escape
html_escape-IsInert [] = tt
html_escape-IsInert (c ∷ s) =
    All-append IsInert (escape_char c) (html_escape s) (escape_char-IsInert c)
      (html_escape-IsInert s)

read_plain : (c : ℕ) (s : Text) → c ≢ b'&' → read_reference references (c ∷ s) ≡ none
unfolding read_reference strip_prefix
read_plain c s h = ground arith

read_escape_char :
    (c : ℕ) (f : ℕ) (s : Text) → read_text (suc f) (escape_char c ++ s) ≡ c ∷ read_text f s
unfolding escape_char read_text
read_escape_char c f s = unfold read_reference strip_prefix in ground (arith, read_plain c s)

read_text-html_escape : (f : ℕ) (s : Text) → length s ≤ f → read_text f (html_escape s) ≡ s
unfolding html_escape
read_text-html_escape zero [] h = unfold read_text in refl
read_text-html_escape (suc f) [] h = unfold read_text in refl
read_text-html_escape zero (c ∷ s) h = ground arith
read_text-html_escape (suc f) (c ∷ s) h =
    read_escape_char c f (html_escape s) ∙ ap (λ t. c ∷ t) (read_text-html_escape f s (omega arith))

escape_char-filled : (c : ℕ) → 1 ≤ length (escape_char c)
unfolding escape_char
escape_char-filled c = ground arith

length-html_escape : (s : Text) → length s ≤ length (html_escape s)
unfolding html_escape
length-html_escape [] = omega arith
length-html_escape (c ∷ s) = omega (
  arith,
  length-html_escape s,
  escape_char-filled c,
  length-append (escape_char c) (html_escape s),
)

-- Escaped text holds no angle bracket and no quote, so it cannot end the attribute that it stands
-- in, and reading its character references back gives the text that was escaped.
pub html_escape_lem :
    (s : Text)
    → All IsInert (html_escape s) × (read_text (length (html_escape s)) (html_escape s) ≡ s)
html_escape_lem s =
    (html_escape-IsInert s, read_text-html_escape (length (html_escape s)) s (length-html_escape s))
