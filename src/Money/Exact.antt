-- ===== src/Money/Exact.antt =====
-- Which amounts are accepted, and that their value never changes.
use epay_sdk_rust.Common.{ℕ, ◌+◌, ◌*◌, ◌/◌, ◌<◌, ◌≡◌, refl, sym, ap, ◌∙◌, subst, ◌↔◌, false, arith}
use epay_sdk_rust.Common.Int.{ℤ, pos, negsuc, pos-injective}
use epay_sdk_rust.Crates.Decimals.{Decimals, cent, is_le_zero}
use epay_sdk_rust.Error.{ok}
use epay_sdk_rust.Money.{Money, new}

module _ (dec : Decimals) where
  open dec use {Decimal, scaled}

  -- the amount is that many hundredths
  abbrev pub HasCents : Money dec → ℕ → Type 0
  HasCents m n = scaled m.value ≡ pos (n * cent)

  rounded_fixed : (n : ℕ) → n * cent ≡ (n * cent + cent / 2) / cent * cent
  rounded_fixed n = omega arith

  -- the tests of `new`
  new_tests :
      (amount : Decimal) (m : Money dec)
      → new dec amount ≡ ok m
      → (is_le_zero (scaled amount) ≡ false)
        × (scaled (dec.round_cents amount) ≡ scaled amount)
        × (m.value ≡ dec.round_cents amount)
  unfolding new
  new_tests amount m h =
      ground (arith, dec.le_zero_lem amount, dec.equal_iff (dec.round_cents amount) amount)

  new_sound_of :
      (amount : Decimal) (m : Money dec) (v : ℤ)
      → scaled amount ≡ v
      → new dec amount ≡ ok m
      → (n : ℕ) × (0 < n) × (scaled amount ≡ pos (n * cent)) × HasCents m n
  new_sound_of amount m (pos v) e h =
      let (positive, fixed, same) = new_tests amount m h in
      let rounded = dec.round_pos amount v e in
      let exact : v ≡ (v + cent / 2) / cent * cent = pos-injective (sym e ∙ sym fixed ∙ rounded) in
      let nonzero : 0 < v = ground (arith, e, positive) in
      ((v + cent / 2) / cent, omega arith, e ∙ ap pos exact, ap scaled same ∙ rounded)
  new_sound_of amount m (negsuc v) e h =
      let (positive, fixed, same) = new_tests amount m h in ground (arith, e, positive)

  new_complete :
      (amount : Decimal) (n : ℕ)
      → 0 < n
      → scaled amount ≡ pos (n * cent)
      → (m : Money dec) × (new dec amount ≡ ok m) × HasCents m n
  unfolding new
  new_complete amount n h e =
      let rounded = dec.round_pos amount (n * cent) e ∙ ap pos (sym (rounded_fixed n)) in
      let fixed = (dec.equal_iff (dec.round_cents amount) amount).1 (rounded ∙ sym e) in
      let positive : dec.le_zero amount ≡ false =
        dec.le_zero_lem amount ∙ ap is_le_zero e ∙ ground arith in
      (record { value = dec.round_cents amount }, rw (positive, fixed), rounded)

  pub new_iff :
      (amount : Decimal) (n : ℕ)
      → ((m : Money dec) × (new dec amount ≡ ok m) × HasCents m n)
        ↔ ((0 < n) × (scaled amount ≡ pos (n * cent)))
  new_iff amount n = (
    λ h.
        let (m, built, has) = h in
        let (k, positive, exact, has') = new_sound_of amount m (scaled amount) refl built in
        let same : k * cent ≡ n * cent = pos-injective (sym has' ∙ has) in
        let equal : k ≡ n = omega arith in
        (
          subst (λ i. 0 < i) equal positive,
          subst (λ i. scaled amount ≡ pos (i * cent)) equal exact,
        ),
    λ h. new_complete amount n h.0 h.1,
  )
