-- ===== src/Text/Split.antt =====
-- Splitting what was joined.
use epay_sdk_rust.Common.{
  ℕ, ◌≡◌, refl, inl, inr, true, false, some, List, [], ◌∷◌, ◌++◌, append_assoc, arith, ◌==◌,
  Bool-cases, All,
}
use epay_sdk_rust.Text.{Text, split, split_once, join}

-- the text does not hold the character
abbrev pub Lacks : ℕ → Text → Type 0
Lacks sep s = All (λ c. (c == sep) ≡ false) s

pub split-Lacks : (s : Text) (sep : ℕ) → Lacks sep s → split s sep ≡ s ∷ []
unfolding split
split-Lacks [] sep h = refl
split-Lacks (c ∷ s) sep (hc, hs) = rw (split-Lacks s sep hs, hc)

split-cons : (s : Text) (sep : ℕ) → (p : Text) × (ps : List Text) × (split s sep ≡ p ∷ ps)
unfolding split
split-cons [] sep = ([], [], refl)
split-cons (c ∷ s) sep =
    let (p, ps, e) = split-cons s sep in
    elim (Bool-cases (c == sep)) [
      | inl same ↦ ([], p ∷ ps, rw (e, same))
      | inr differs ↦ (c ∷ p, ps, rw (e, differs))
    ]

pub split-append : (s t : Text) (sep : ℕ) → Lacks sep s → split (s ++ sep ∷ t) sep ≡ s ∷ split t sep
unfolding split
split-append [] t sep h =
    let (p, ps, e) = split-cons t sep in
    let same : (sep == sep) ≡ true = ground arith in rw (e, same)
split-append (c ∷ s) t sep (hc, hs) = rw (split-append s t sep hs, hc)

join-cons :
    (p q : Text) (ps : List Text) (sep : ℕ)
    → join (p ∷ q ∷ ps) (sep ∷ []) ≡ p ++ sep ∷ join (q ∷ ps) (sep ∷ [])
unfolding join
join-cons p q ps sep = append_assoc p (sep ∷ []) (join (q ∷ ps) (sep ∷ []))

pub split-join :
    (p : Text) (ps : List Text) (sep : ℕ)
    → All (Lacks sep) (p ∷ ps)
    → split (join (p ∷ ps) (sep ∷ [])) sep ≡ p ∷ ps
unfolding join
split-join p [] sep (h, _) = split-Lacks p sep h
split-join p (q ∷ ps) sep (h, hs) =
    rw (
      join-cons p q ps sep,
      split-append p (join (q ∷ ps) (sep ∷ [])) sep h,
      split-join q ps sep hs,
    )

pub split_once-append :
    (s t : Text) (sep : ℕ) → Lacks sep s → split_once (s ++ sep ∷ t) sep ≡ some (s, t)
unfolding split_once
split_once-append [] t sep h = let same : (sep == sep) ≡ true = ground arith in rw (same)
split_once-append (c ∷ s) t sep (hc, hs) = rw (split_once-append s t sep hs, hc)
